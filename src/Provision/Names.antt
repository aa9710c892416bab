-- ===== src/Provision/Names.antt =====
-- Device ids stay unique: `registerDevice`, `deleteDevice` and `updateDeviceConfig`.
use aio_t_cloud.Base.{
  Text, ◌==◌, eq_iff, ℕ, ◌&&◌, Option, none, some, ◌≡◌, ◌≢◌, true, refl, sym, ap, ◌∙◌, inl, inr,
  arith, Bool-cases, Option-cases, if◌then◌else◌,
}
use mathlib.Core.Path.{subst}
use aio_t_cloud.Constants.{ErrorCode, offline, new}
use aio_t_cloud.Entities.{Device, DeviceTemplate}
use aio_t_cloud.Repository.{drop_if}
use aio_t_cloud.Response.{ok, fail, Response-cases}
use aio_t_cloud.Database.{Store, World, device_row, find_by_device_id, find_owned}
use aio_t_cloud.Mqtt.{Registry}
use aio_t_cloud.Provision.{
  Registration, can_register, registered, store_registered, register_device, delete_device,
  ConfigUpdate, with_config, update_device_config,
}

module _ {S : Store} where
  -- No two stored devices have the same device id.
  abbrev pub HasUniqueNames : World S → Type 0
  HasUniqueNames w =
      (i j : Text) (d e : Device)
      → device_row i w ≡ some d
      → device_row j w ≡ some e
      → d.device_id ≡ e.device_id
      → i ≡ j

  can_register-ok :
      (dto : Registration) (w : World S)
      → can_register dto w ≡ ok tt
      → find_by_device_id dto.device_id w ≡ none
  unfolding can_register
  can_register-ok dto w h = ground arith

  can_register-template :
      (dto : Registration) (w : World S)
      → can_register dto w ≡ ok tt
      → (t : DeviceTemplate) × (S.template_repository.row w.templates t.id ≡ some t)
        × (t.id ≡ dto.template_id)
        × (t.is_active ≡ true)
  unfolding can_register
  can_register-template dto w h =
      elim (Option-cases
        (S.template_repository.find_one (λ t. t.id == dto.template_id) w.templates)) [
          | inl gone ↦ absurd (ground arith)
          | inr (t, e) ↦
              let (stored, fits) =
                S.template_repository.find_one-some (λ x. x.id == dto.template_id) w.templates t
                  e in
              (t, stored, (eq_iff t.id dto.template_id).0 fits, ground arith)
        ]

  -- What a registration has changed.
  pub record IsRegistered (d : Device) (w w' : World S) : Type 0 where
    pub absent : (i : Text) (e : Device) → device_row i w ≡ some e → e.device_id ≢ d.device_id
    pub fresh : device_row d.id w ≡ none
    pub devices : (i : Text) → device_row i w' ≡ (if d.id == i then some d else device_row i w)
    pub claimed :
        (i : Text)
        → S.unclaimed_repository.row w'.unclaimed i
          ≡ drop_if (λ u. u.device_id == d.device_id) (S.unclaimed_repository.row w.unclaimed i)
    pub emitted : w'.emitted ≡ w.emitted

  store_registered-IsRegistered :
      (now : ℕ) (user_id : Text) (factory_id : Option Text) (dto : Registration) (w : World S)
      → find_by_device_id dto.device_id w ≡ none
      → IsRegistered
          (registered now user_id factory_id dto w)
          w
          (store_registered now user_id factory_id dto w)
  unfolding store_registered
  store_registered-IsRegistered now user_id factory_id dto w none_yet = record {
    absent = λ i e stored same. ground (
      arith,
      S.device_repository.find_one-none (λ d. d.device_id == dto.device_id) w.devices i e none_yet
          stored,
      eq_iff e.device_id dto.device_id,
    );
    fresh = S.device_repository.next_id_fresh w.devices;
    devices =
        λ i. S.device_repository.row-save (registered now user_id factory_id dto w) w.devices i;
    claimed =
        λ i. S.unclaimed_repository.row-remove (λ u. u.device_id == dto.device_id) w.unclaimed i;
    emitted = refl;
  }

  -- A registration that succeeds named an active template that is stored, and a device id that no
  -- stored device had; it adds that one device, new and offline, with the name, the template, the caller
  -- and the caller's factory, and removes exactly the sightings of that id from
  -- the unclaimed devices.
  pub register_device-ok :
      (now : ℕ) (user_id : Text) (factory_id : Option Text) (dto : Registration) (w : World S)
      (d : Device)
      → (register_device now user_id factory_id dto w).0 ≡ ok d
      → (t : DeviceTemplate) × (S.template_repository.row w.templates t.id ≡ some t)
        × (t.id ≡ dto.template_id)
        × (t.is_active ≡ true)
        × (d.device_id ≡ dto.device_id)
        × (d.name ≡ dto.name)
        × (d.template_id ≡ dto.template_id)
        × (d.user_id ≡ user_id)
        × (d.factory_id ≡ factory_id)
        × ((d.status ≡ offline) × (d.lifecycle_stage ≡ new))
        × IsRegistered d w (register_device now user_id factory_id dto w).1
  unfolding register_device store_registered
  register_device-ok now user_id factory_id dto w d h = elim (Response-cases (can_register dto w)) [
    | inr (c, m, e) ↦ absurd (ground arith)
    | inl (_, e) ↦
        let is : d ≡ registered now user_id factory_id dto w = ground arith in
        let same : (register_device now user_id factory_id dto w).1
            ≡ store_registered now user_id factory_id dto w =
          ground arith in
        let done =
          store_registered-IsRegistered now user_id factory_id dto w (can_register-ok dto w e) in
        let (t, there, chosen, active) = can_register-template dto w e in
        (
          t,
          there,
          chosen,
          active,
          ap (λ x. x.device_id) is,
          ap (λ x. x.name) is,
          ap (λ x. x.template_id) is,
          ap (λ x. x.user_id) is,
          ap (λ x. x.factory_id) is,
          (ap (λ x. x.status) is, ap (λ x. x.lifecycle_stage) is),
          subst (λ x. IsRegistered x w (register_device now user_id factory_id dto w).1) (sym is)
              (rw same done),
        )
  ]

  register_device-fail :
      (now : ℕ) (user_id : Text) (factory_id : Option Text) (dto : Registration) (w : World S)
      (c : ErrorCode) (m : Text)
      → (register_device now user_id factory_id dto w).0 ≡ fail c m
      → (register_device now user_id factory_id dto w).1 ≡ w
  unfolding register_device
  register_device-fail now user_id factory_id dto w c m h = ground arith

  -- One call of the service that writes names or rows of devices.
  pub data NamesStep (w : World S) : World S → Type 0 where
    registering :
        (now : ℕ) (user_id : Text) (factory_id : Option Text) (dto : Registration)
        → NamesStep w (register_device now user_id factory_id dto w).1
    deleting : (user_id id : Text) → NamesStep w (delete_device user_id id w).1
    configuring :
        (user_id id : Text) (u : ConfigUpdate) (r : Registry)
        → NamesStep w (update_device_config user_id id u (r, w)).1.1

  pub data NamesRun (w : World S) : World S → Type 0 where
    start : NamesRun w w
    then_step : {v u : World S} → NamesRun w v → NamesStep v u → NamesRun w u

  register_device-HasUniqueNames :
      (now : ℕ) (user_id : Text) (factory_id : Option Text) (dto : Registration) (w : World S)
      → HasUniqueNames w
      → HasUniqueNames (register_device now user_id factory_id dto w).1
  register_device-HasUniqueNames now user_id factory_id dto w h =
      elim (Response-cases (register_device now user_id factory_id dto w).0) [
        | inr (c, m, e) ↦ rw (register_device-fail now user_id factory_id dto w c m e) h
        | inl (d, e) ↦
            let (_, _, _, _, _, _, _, _, _, _, done) =
              register_device-ok now user_id factory_id dto w d e in
            λ i j x y at_i at_j same. elim (Bool-cases (d.id == i)) [
              | inl new_i ↦ elim (Bool-cases (d.id == j)) [
                | inl new_j ↦ ground (arith, eq_iff d.id i, eq_iff d.id j)
                | inr old_j ↦
                    absurd (ground (arith, done.devices i, done.devices j, done.absent j y))
              ]
              | inr old_i ↦ elim (Bool-cases (d.id == j)) [
                | inl new_j ↦
                    absurd (ground (arith, done.devices i, done.devices j, done.absent i x))
                | inr old_j ↦
                    h i j x y (ground (arith, done.devices i)) (ground (arith, done.devices j)) same
              ]
            ]
      ]

  delete_device-HasUniqueNames :
      (user_id id : Text) (w : World S)
      → HasUniqueNames w
      → HasUniqueNames (delete_device user_id id w).1
  unfolding delete_device
  delete_device-HasUniqueNames user_id id w h i j x y at_i at_j same =
      elim (Option-cases (find_owned user_id id w)) [
        | inl o ↦ h i j x y (ground arith) (ground arith) same
        | inr (d, o) ↦
            h i j x y
              (ground (arith, S.device_repository.row-remove (λ z. z.id == d.id) w.devices i))
              (ground (arith, S.device_repository.row-remove (λ z. z.id == d.id) w.devices j)) same
      ]

  -- A device had its name before its configuration was changed.
  named_before :
      (user_id id : Text) (u : ConfigUpdate) (r : Registry) (w : World S) (i : Text) (x : Device)
      → device_row i (update_device_config user_id id u (r, w)).1.1 ≡ some x
      → (y : Device) × (device_row i w ≡ some y) × (y.device_id ≡ x.device_id)
  unfolding update_device_config with_config
  named_before user_id id u r w i x at_i = elim (Option-cases (find_owned user_id id w)) [
    | inl o ↦ (x, ground arith, refl)
    | inr (d, o) ↦
        let (stored, _) =
          S.device_repository.find_one-some (λ z. z.id == id && z.user_id == user_id) w.devices d
            o in
        let saved = S.device_repository.row-save (with_config u d) w.devices i in
        elim (Bool-cases (d.id == i)) [
          | inl here ↦ (d, ground (arith, eq_iff d.id i), ground arith)
          | inr other ↦ (x, ground arith, refl)
        ]
  ]

  update_device_config-HasUniqueNames :
      (user_id id : Text) (u : ConfigUpdate) (r : Registry) (w : World S)
      → HasUniqueNames w
      → HasUniqueNames (update_device_config user_id id u (r, w)).1.1
  update_device_config-HasUniqueNames user_id id u r w h i j x y at_i at_j same =
      let (x', was_i, name_i) = named_before user_id id u r w i x at_i in
      let (y', was_j, name_j) = named_before user_id id u r w j y at_j in
      h i j x' y' was_i was_j (name_i ∙ same ∙ sym name_j)

  -- Device ids stay unique in every run of registrations, deletions and changes of configuration.
  pub NamesRun-HasUniqueNames : {w v : World S} → HasUniqueNames w → NamesRun w v → HasUniqueNames v
  NamesRun-HasUniqueNames h start = h
  NamesRun-HasUniqueNames h (then_step {v} r (registering now user_id factory_id dto)) =
      register_device-HasUniqueNames now user_id factory_id dto v (NamesRun-HasUniqueNames h r)
  NamesRun-HasUniqueNames h (then_step {v} r (deleting user_id id)) =
      delete_device-HasUniqueNames user_id id v (NamesRun-HasUniqueNames h r)
  NamesRun-HasUniqueNames h (then_step {v} r (configuring user_id id u g)) =
      update_device_config-HasUniqueNames user_id id u g v (NamesRun-HasUniqueNames h r)
