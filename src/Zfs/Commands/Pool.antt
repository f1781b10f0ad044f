-- ===== src/Zfs/Commands/Pool.antt =====
-- What `CreatePool` of internal/modules/zfs/zfs.go runs, returns and records.
use porcelain.Prelude.{
  false, List, [], ◌∷◌, ◌++◌, none, some, err, sym, ◌≡◌, ◌≢◌, refl, arith, ap, subst, if◌then◌else◌,
}
use porcelain.Text.{Text, codes, ◌==◌, trim_space, to_lower}
use porcelain.Host.{Command, World, Host, command, exec}
use porcelain.Zfs.{Task, done, failed, Module, append_task}
use porcelain.Zfs.Commands.{
  create_failed, compression_failed, is_fake, create_args, compression_value, device_args, zpool,
  zfs, create_pool,
}
use porcelain.Zfs.Commands.Laws.{
  reply, begun, set_state_lem, closing, not_blank, task_start_lem, give_up_lem, settle_lem,
}

-- The devices that are named, each trimmed.
abbrev pub given_devices : List Text → List Text
given_devices [] = []
given_devices (d ∷ devices) =
    (if trim_space d == [] then [] else trim_space d ∷ []) ++ given_devices devices

-- The topology of a pool, if one is asked for.
abbrev pub topology : Text → List Text
topology raid = if trim_space (to_lower raid) == [] then [] else trim_space (to_lower raid) ∷ []

-- The two commands of `CreatePool`: the pool with its topology and its devices, and the compression,
-- which is on unless another one is asked for.
abbrev pub create_command : Text → Text → List Text → Command
create_command name raid devices =
    command (codes "zpool")
      (codes "create" ∷ trim_space name ∷ (topology raid ++ given_devices devices))

abbrev pub asked_compression : Text → Text
asked_compression compression =
    if trim_space (to_lower compression) == []
    then codes "on"
    else trim_space (to_lower compression)

abbrev property_with : Text → Text → Command
property_with name value =
    command (codes "zfs") (codes "set" ∷ (codes "compression=" ++ value) ∷ trim_space name ∷ [])

abbrev pub property_command : Text → Text → Command
property_command name compression =
    command (codes "zfs")
      (codes "set" ∷ (codes "compression=" ++ asked_compression compression) ∷ trim_space name ∷ [])

device_args_lem : (devices : List Text) → device_args devices ≡ given_devices devices
unfolding device_args
device_args_lem [] = refl
device_args_lem (d ∷ devices) = let ih = device_args_lem devices in ground (arith, ih)

create_args_lem :
    (name raid : Text) (devices : List Text)
    → create_args name raid devices
      ≡ codes "create" ∷ name ∷ (topology raid ++ given_devices devices)
unfolding create_args
create_args_lem name raid devices = let e = device_args_lem devices in ground (arith, e)

compression_value_lem : (c : Text) → compression_value c ≡ asked_compression c
unfolding compression_value
compression_value_lem c = refl

-- The commands as the code builds them.
abbrev ran_create : Text → Text → List Text → Command
ran_create name raid devices = zpool (create_args (trim_space name) raid devices)

abbrev ran_property : Text → Text → Command
ran_property name compression =
    zfs
      (codes "set" ∷ (codes "compression=" ++ compression_value compression) ∷ trim_space name ∷ [])

module _ {F : Type 0} (zero_progress : F) (host : Host) where
  abbrev pub begun_pool : Text → World → Task F
  begun_pool name w = begun zero_progress host (codes "create-pool") (trim_space name) (host.now w)

  module _ (name raid compression : Text) (d : Text) (devices : List Text) (m : Module F)
      (w : World) where
    -- On a module that is not locked and has `zpool`, for a pool with a name and at least one
    -- device: if `zpool create` fails, `CreatePool` fails with its output, records that, and
    -- sets no property.
    pub create_pool_refused :
        {message : Text}
        → m.locked ≡ false
        → is_fake m.mode ≡ false
        → trim_space name ≢ []
        → (host.run w (ran_create name raid (d ∷ devices))).failure ≡ some message
        → create_pool zero_progress host name raid compression (d ∷ devices) m w ≡ (
            let c = ran_create name raid (d ∷ devices) in
            let text = trim_space (host.run w c).output in
            some (
              err (create_failed text),
              record m {
                locked = false;
                tasks = append_task m.tasks (record (begun_pool name w) {
                  state = failed;
                  message = text;
                  ended_at = some (host.now (c ∷ w));
                });
              },
              c ∷ w,
            ))
    unfolding create_pool exec
    create_pool_refused free real named refused =
        rw
          (
            real,
            not_blank name named,
            task_start_lem zero_progress host (codes "create-pool") (trim_space name) (host.now w) m
                free,
            refused,
            sym (
                set_state_lem zero_progress host failed
                  (trim_space (host.run w (ran_create name raid (d ∷ devices))).output)
                  (host.now (ran_create name raid (d ∷ devices) ∷ w)) (begun_pool name w)),
          )
          (give_up_lem zero_progress host create_failed
            (host.run w (ran_create name raid (d ∷ devices))) (begun_pool name w) m
            (ran_create name raid (d ∷ devices) ∷ w))

    -- What `CreatePool` does once the first command has succeeded, for the two commands.
    abbrev Makes : Command → Command → Type 0
    Makes c p =
        (host.run w c).failure ≡ none
        → create_pool zero_progress host name raid compression (d ∷ devices) m w
          ≡ some (
            reply zero_progress host compression_failed (host.run (c ∷ w) p),
            record m {
              locked = false;
              tasks = append_task m.tasks (
                  closing zero_progress host done (codes "pool created") (host.run (c ∷ w) p)
                    (host.now (p ∷ c ∷ w)) (begun_pool name w));
            },
            p ∷ c ∷ w,
          )

    create_pool_ran :
        m.locked ≡ false
        → is_fake m.mode ≡ false
        → trim_space name ≢ []
        → Makes (ran_create name raid (d ∷ devices)) (ran_property name compression)
    unfolding create_pool exec
    create_pool_ran free real named made =
        rw
          (
            real,
            not_blank name named,
            task_start_lem zero_progress host (codes "create-pool") (trim_space name) (host.now w) m
                free,
            made,
          )
          (settle_lem zero_progress host compression_failed done (codes "pool created")
            (host.run (ran_create name raid (d ∷ devices) ∷ w) (ran_property name compression))
            (begun_pool name w) m
            (ran_property name compression ∷ ran_create name raid (d ∷ devices) ∷ w))

    -- On a module that is not locked and has `zpool`, for a pool with a name and a list of devices that
    -- is not empty: if `zpool create` with the topology that is asked for and the devices that are not
    -- blank succeeds, `CreatePool` sets the compression property, to "on" if none is asked for, returns
    -- what that command's answer says, leaves one entry that is done or failed accordingly, and leaves
    -- the lock free.
    pub create_pool_made :
        m.locked ≡ false
        → is_fake m.mode ≡ false
        → trim_space name ≢ []
        → (host.run w (create_command name raid (d ∷ devices))).failure ≡ none
        → create_pool zero_progress host name raid compression (d ∷ devices) m w ≡ (
            let made = create_command name raid (d ∷ devices) ∷ w in
            let c = property_command name compression in
            some (
              reply zero_progress host compression_failed (host.run made c),
              record m {
                locked = false;
                tasks = append_task m.tasks (
                    closing zero_progress host done
                      (codes "pool created")
                      (host.run made c)
                      (host.now (c ∷ made))
                      (begun_pool name w));
              },
              c ∷ made,
            ))
    create_pool_made free real named =
        let lem = create_pool_ran free real named in
        subst (Makes (create_command name raid (d ∷ devices)))
          (ap (λ v. property_with name v) (compression_value_lem compression))
          (subst (λ c. Makes c (ran_property name compression))
            (ap zpool (create_args_lem (trim_space name) raid (d ∷ devices))) lem)
