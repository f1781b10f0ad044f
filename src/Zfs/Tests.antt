-- ===== src/Zfs/Tests.antt =====
-- Runs of the ZFS module on a toy host, and its theorems at concrete calls.
use porcelain.Prelude.{
  ◌*◌, ℕ, true, false, [], ◌∷◌, ◌++◌, none, some, ok, ◌≡◌, refl, length, eqb, if◌then◌else◌,
}
use porcelain.Text.{
  Text, codes, ◌==◌, trim_space, to_lower, has_prefix, trim_prefix, contains, index, last_index,
  split,
}
use porcelain.Host.{Host, Floats}
use porcelain.Zfs.{present, Task, done, failed, Module, ◌>>=◌, append_task, started, set_state}
use porcelain.Zfs.Status.{parse_scrub_progress, status_and_timestamp}
use porcelain.Zfs.Commands.{
  zpool, create_pool, destroy_pool, start_scrub, create_args, destroy_failed,
}
use porcelain.Zfs.Commands.Laws.{Runs, destroy_pool-Runs}
use porcelain.Zfs.Commands.Pool.{begun_pool, create_command, property_command, create_pool_made}
use porcelain.Zfs.Recent.{recent_tasks}
use porcelain.Zfs.Recent.Laws.{start_scrub-recent_tasks}
use porcelain.Zfs.Listing.{Sizes, parse_zfs_bytes}
use porcelain.Zfs.Listing.Laws.{parse_zfs_bytes_bare}

-- Numbers in place of floats; a text stands for its length.
abbrev toy_floats : Floats
toy_floats = record {
  Float = ℕ;
  zero_float = 0;
  is_positive = λ n. if eqb n 0 then false else true;
  at_least = λ a b. eqb a b;
  parse_float = λ s. some (length s);
  fixed_two = λ n. codes "7.00";
  fixed_zero = λ n. codes "7";
}

abbrev repaired : Text
repaired = codes "  pool: tank\n  scan: scrub repaired 0B in 00:00:01 with 0 errors on Sun Jan  5\n"

abbrev scrubbing : Text
scrubbing = codes "  scan: scrub in progress since Sun\n\n    1G scanned, 12.5% done, 00:10 to go\n"

-- A host on which every command succeeds and prints the same text.
abbrev printing : Text → Host
printing text = record {
  run = λ w c. record { output = text; failure = none };
  now = λ w. length w;
}

-- A host on which every command fails.
abbrev broken : Host
broken = record {
  run = λ w c. record { output = codes " no such pool "; failure = some (codes "exit status 1") };
  now = λ w. length w;
}

abbrev idle : Module ℕ
idle = record { mode = present; locked = false; tasks = [] }

parsed :
    ((parse_scrub_progress toy_floats (codes "tank") repaired).in_progress ≡ false)
    × ((parse_scrub_progress toy_floats (codes "tank") scrubbing).in_progress ≡ true)
    × ((parse_scrub_progress toy_floats (codes "tank") scrubbing).eta ≡ codes "00:10")
    × ((parse_scrub_progress toy_floats (codes "tank") scrubbing).percent ≡ 4)
    × ((parse_scrub_progress toy_floats (codes "tank") scrubbing).started_at ≡ codes "Sun")
    × ((status_and_timestamp toy_floats (parse_scrub_progress toy_floats (codes "tank") repaired)).1
        ≡ codes "Sun Jan  5")
unfolding parse_scrub_progress status_and_timestamp trim_space has_prefix trim_prefix contains index
    last_index split ◌==◌
parsed = (refl, refl, refl, refl, refl, refl)

created :
    create_args (codes "tank") (codes " MIRROR ") (codes "a" ∷ codes " " ∷ codes " b" ∷ [])
    ≡ codes "create" ∷ codes "tank" ∷ codes "mirror" ∷ codes "a" ∷ codes "b" ∷ []
unfolding create_args trim_space to_lower ◌==◌
created = refl

destroy_pool-Runs_example :
    Runs 0 broken
      (codes "destroy-pool")
      (trim_space (codes "tank"))
      (zpool (codes "destroy" ∷ trim_space (codes "tank") ∷ []))
      destroy_failed
      done
      (codes "pool destroyed")
      idle
      []
      (destroy_pool 0 broken (codes "tank") idle [])
unfolding trim_space
destroy_pool-Runs_example = destroy_pool-Runs 0 broken (codes "tank") idle [] refl refl (cc)

create_pool_made_example :
    create_pool 0 (printing []) (codes "tank") [] [] (codes "sda" ∷ []) idle [] ≡ (
      let made = create_command (codes "tank") [] (codes "sda" ∷ []) ∷ [] in
      let c = property_command (codes "tank") [] in
      some (
        ok tt,
        record idle {
          tasks = append_task [] (record (begun_pool {F = ℕ} 0 (printing []) (codes "tank") []) {
            state = done;
            message = codes "pool created";
            ended_at = some 2;
          });
        },
        c ∷ made,
      ))
unfolding trim_space
create_pool_made_example =
    create_pool_made 0 (printing []) (codes "tank") [] [] (codes "sda") [] idle [] refl refl (cc)
      refl

-- A log with one scrub that is recorded as running.
abbrev scrubbed : Task ℕ
scrubbed = record (started 0 (codes "scrub-start") (codes "tank") 5) {
  message = codes "scrub started";
}

abbrev busy : Module ℕ
busy = record { mode = present; locked = false; tasks = scrubbed ∷ [] }

start_scrub-recent_tasks_example :
    (start_scrub 0 (printing repaired) (codes "tank") idle [] >>= λ r.
    recent_tasks toy_floats (printing repaired) 20 r.1 r.2)
    ≡ none
unfolding parse_scrub_progress trim_space has_prefix trim_prefix contains index last_index split
    ◌==◌
start_scrub-recent_tasks_example =
    start_scrub-recent_tasks toy_floats (printing repaired) 0 20 (codes "tank") idle [] refl refl
      (cc) refl (refl, refl)

-- A log with two operations that have ended.
abbrev ended : Module ℕ
ended = record {
  mode = present;
  locked = false;
  tasks =
      set_state done [] 6 (started 0 (codes "snapshot") (codes "tank") 5)
      ∷ set_state failed [] 8 (started 0 (codes "scrub-start") (codes "tank") 7)
      ∷ [];
}

abbrev toy_sizes : Sizes toy_floats
toy_sizes = record { Int64 = ℕ; zero_size = 0; times_1024 = λ n. n * 1024; to_int64 = λ n. n }

parse_zfs_bytes_bare_example :
    parse_zfs_bytes toy_floats toy_sizes (codes "51" ++ b'2' ∷ [])
    ≡ elim (toy_floats.parse_float (codes "51")) [
      | none ↦ toy_sizes.zero_size
      | some v ↦ toy_sizes.to_int64 v
    ]
unfolding trim_space
parse_zfs_bytes_bare_example =
    parse_zfs_bytes_bare toy_floats toy_sizes (codes "51") b'2' (cc) refl refl
