-- ===== src/Server/HistoryRoutes.antt =====
-- The handlers of the sensors' history in internal/server/router.go (`registerSensorsAPI`): as text,
-- as JSON and as a chart.
mod Tests
use porcelain.Prelude.{
  ℕ, suc, Bool, ◌&&◌, List, [], ◌∷◌, ◌++◌, if◌then◌else◌, ltb, eqb, length, map, is_nil, some,
}
use porcelain.Text.{Text, codes, join}
use porcelain.Text.Number.{query_limit}
use porcelain.Text.Escape.{escape_html}
use porcelain.Host.{Floats}
use porcelain.Registry.{Registry}
use porcelain.Sensors
use porcelain.Sensors.{HistoryPoint, recent_history}
use porcelain.Server.{
  Request, note, html, json_text, Fiber, HostModule, sensors_module, App, Handler, sent, fail,
  with_module,
}

-- The arithmetic of the floats that the chart is drawn with.
pub record Plot (F : Type 0) : Type 0 where
  pub of_nat : ℕ → F
  pub add : F → F → F
  pub sub : F → F → F
  pub mul : F → F → F
  pub div : F → F → F
  pub less : F → F → Bool
  pub same : F → F → Bool

module _ (fl : Floats) (plot : Plot fl.Float) where
  open fl use {Float, fixed_two}
  open plot use {of_nat, add, sub, mul, div, less, same}

  -- The loop over the values for the least and the greatest one.
  unfoldable pub lowest : Float → List (HistoryPoint Float) → Float
  lowest least [] = least
  lowest least (p ∷ points) = lowest (if less p.value least then p.value else least) points

  unfoldable pub highest : Float → List (HistoryPoint Float) → Float
  highest most [] = most
  highest most (p ∷ points) = highest (if less most p.value then p.value else most) points

  abbrev pad : Float
  pad = of_nat 12

  -- The greatest value of a chart; a flat line is one high.
  unfoldable pub top_of : Float → Float → Float
  top_of least most = if same most least then add least (of_nat 1) else most

  -- The `x` of the place `i` among places up to `last`.
  unfoldable pub x_at : ℕ → ℕ → Float
  x_at last i = add pad (mul (div (of_nat i) (of_nat last)) (sub (of_nat 640) (mul (of_nat 2) pad)))

  -- The `y` of a value.
  unfoldable pub y_at : Float → Float → Float → Float
  y_at least most v = add pad (
      mul (sub (of_nat 1) (div (sub v least) (sub most least)))
        (sub (of_nat 160) (mul (of_nat 2) pad)))

  -- The path through the points from the place `i` on.
  unfoldable pub path_data : Float → Float → ℕ → ℕ → List (HistoryPoint Float) → Text
  unfolding x_at y_at
  path_data least most last i [] = []
  path_data least most last i (p ∷ points) =
      (if eqb i 0 then codes "M " else codes " L ")
      ++ fixed_two (x_at last i)
      ++ codes " "
      ++ fixed_two (y_at least most p.value)
      ++ path_data least most last (suc i) points

  -- The chart of a title, the least and the greatest value, the last place, and the points.
  unfoldable pub svg : Text → Float → Float → ℕ → List (HistoryPoint Float) → Text
  unfolding path_data
  svg title least most last points =
      codes "<div class=\"space-y-2\">"
      ++ codes "<p class=\"text-xs\">"
      ++ escape_html title
      ++ codes "</p>"
      ++ codes "<svg viewBox=\"0 0 640 160\" class=\"w-full h-40 rounded border\">"
      ++ codes "<rect x=\"0\" y=\"0\" width=\"640\" height=\"160\" fill=\"transparent\"/>"
      ++ codes "<path d=\""
      ++ path_data least most last 0 points
      ++ codes "\" fill=\"none\" stroke=\"currentColor\" stroke-width=\"2\"/>"
      ++ codes "</svg>"
      ++ codes "<p class=\"text-xs\">min: "
      ++ fixed_two least
      ++ codes " max: "
      ++ fixed_two most
      ++ codes "</p>"
      ++ codes "</div>"

-- `format_time` is the print of a time in UTC; `encode` is the JSON of the points.
module _ (fiber : Fiber) (fl : Floats) (plot : Plot fl.Float) (format_time : ℕ → Text)
    (encode : List (Text × fl.Float) → Text) where
  open fl use {Float, fixed_two}

  unfoldable pub as_history :
      (Sensors.Module Float → Handler Float)
      → Registry (HostModule Float)
      → HostModule Float
      → Handler Float
  unfolding fail
  as_history rest r (sensors_module sm) = rest sm
  as_history rest r _ = fail fiber 500 (note "invalid sensors module type")

  -- The part that the three handlers share: the points that the query asks for.
  unfoldable pub with_points : Request → (List (HistoryPoint Float) → Handler Float) → Handler Float
  unfolding with_module as_history recent_history query_limit
  with_points req rest = with_module fiber (codes "sensors") "sensors module not registered" (
      as_history λ sm. rest (
        recent_history fl (req.query "chip") (req.query "reading")
          (query_limit 30 240 (req.query "limit")) sm))

  unfoldable pub history_line : HistoryPoint Float → Text
  history_line p = format_time p.at_time ++ codes "  " ++ fixed_two p.value

  unfoldable pub answer_history : List (HistoryPoint Float) → Handler Float
  unfolding history_line join escape_html
  answer_history points app response =
      if is_nil points
      then sent app (fiber.send_string (note "No history captured yet for this reading.") response)
      else sent app (
          fiber.send_string
            (html (
              codes "<pre class=\"m-0 whitespace-pre-wrap font-mono text-xs leading-relaxed\">"
              ++ escape_html (join (map history_line points) (codes "\n"))
              ++ codes "</pre>"))
            response)

  -- GET /api/sensors/history
  unfoldable pub get_history : Request → Handler Float
  unfolding with_points answer_history
  get_history req = with_points req answer_history

  -- GET /api/sensors/history.json
  unfoldable pub get_history_json : Request → Handler Float
  unfolding with_points
  get_history_json req = with_points req λ points app response. sent app (
      fiber.send_json (json_text (encode (map (λ p. (format_time p.at_time, p.value)) points)))
        response)

  unfoldable pub answer_chart : Text → List (HistoryPoint Float) → Handler Float
  unfolding svg lowest highest top_of
  answer_chart title (p ∷ q ∷ points) app response =
      let least = lowest fl plot p.value (p ∷ q ∷ points) in
      let most = highest fl plot p.value (p ∷ q ∷ points) in
      sent app (
        fiber.send_string
          (html (
            svg fl plot title least (top_of fl plot least most) (suc (length points))
              (p ∷ q ∷ points)))
          response)
  answer_chart title _ app response = sent app (
      fiber.send_string
        (html (
          codes
            "<p class=\"text-xs\">Not enough points yet for a chart. Refresh sensors a few times.</p>"))
        response)

  -- GET /api/sensors/history/chart
  unfoldable pub get_history_chart : Request → Handler Float
  unfolding with_points answer_chart
  get_history_chart req =
      with_points req (answer_chart (req.query "chip" ++ codes " / " ++ req.query "reading"))
