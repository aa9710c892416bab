-- ===== src/Command/Guards.antt =====
-- Which commands may be sent: the guards of `triggerDeviceAction` in
-- src/modules/device/device.service.ts, each apart from the others.
use aio_t_cloud.Base.{
  false, none, find?, ◌&&◌, ◌≢◌, ◌↔◌, ◌⊎◌, List, eq_iff, Text, ◌==◌, true, Option, some, ◌≡◌, refl,
  arith, inl, inr, Bool-cases, Option-cases,
}
use aio_t_cloud.Constants.{DeviceActionType, http, toggle, button}
use aio_t_cloud.Entities.{Device, DeviceTemplate, ActionFieldDefinition}
use aio_t_cloud.Response.{ok}
use aio_t_cloud.Database.{device_row, template_of, find_owned, Store, World}
use aio_t_cloud.Command.{
  is_invalid_value, differs_from, is_toggle, is_uncommandable, DeviceAction, action_target,
}

same_option : (value : Text) (o : Option Text) → (differs_from value o ≡ false) ↔ (o ≡ some value)
same_option value none = ground arith
same_option value (some v) = ground (arith, eq_iff value v)

button_or_toggle : (t : DeviceActionType) → (t ≡ button) ⊎ (is_toggle t ≡ true)
button_or_toggle button = inl refl
button_or_toggle toggle = inr refl

valid-taken :
    (x : ActionFieldDefinition) (value : Text)
    → is_invalid_value x value ≡ false
    → (x.type ≡ button) ⊎ ((x.on_value ≡ some value) ⊎ (x.off_value ≡ some value))
valid-taken x value h = elim (button_or_toggle x.type) [
  | inl pressed ↦ inl pressed
  | inr toggled ↦ elim (Bool-cases (differs_from value x.on_value)) [
    | inr on ↦ inr (inl ((same_option value x.on_value).0 on))
    | inl not_on ↦ inr (inr ((same_option value x.off_value).0 (ground arith)))
  ]
]

taken-valid :
    (x : ActionFieldDefinition) (value : Text)
    → (x.type ≡ button) ⊎ ((x.on_value ≡ some value) ⊎ (x.off_value ≡ some value))
    → is_invalid_value x value ≡ false
taken-valid x value (inl pressed) = ground arith
taken-valid x value (inr (inl on)) = ground (arith, (same_option value x.on_value).1 on)
taken-valid x value (inr (inr off)) = ground (arith, (same_option value x.off_value).1 off)

module _ {S : Store} where
  -- A command that may be sent: to a stored device of the caller that takes commands, with an action of
  -- the schema of its template and a value that the action takes.
  pub record IsCommand (user_id id : Text) (a : DeviceAction) (w : World S) (d : Device)
      : Type 0 where
    pub template : DeviceTemplate
    pub schema : List ActionFieldDefinition
    pub definition : ActionFieldDefinition
    pub stored : device_row d.id w ≡ some d
    pub named : d.id ≡ id
    pub owned : d.user_id ≡ user_id
    pub templated : S.template_repository.row w.templates d.template_id ≡ some template
    pub has_schema : template.action_schema ≡ some schema
    pub listed : find? (λ x. x.key == a.key) schema ≡ some definition
    pub taken :
        (definition.type ≡ button)
        ⊎ ((definition.on_value ≡ some a.value) ⊎ (definition.off_value ≡ some a.value))
    pub reachable : d.push_channel ≢ http

  pub action_target-IsCommand :
      (user_id id : Text) (a : DeviceAction) (w : World S) (d : Device)
      → action_target user_id id a w ≡ ok d
      → IsCommand user_id id a w d
  unfolding action_target
  action_target-IsCommand user_id id a w d h = elim (Option-cases (find_owned user_id id w)) [
    | inl lost ↦ absurd (ground arith)
    | inr (r, found) ↦ elim (Option-cases (template_of r w)) [
      | inl bare ↦ absurd (ground arith)
      | inr (t, templated) ↦ elim (Option-cases t.action_schema) [
        | inl empty ↦ absurd (ground arith)
        | inr (schema, has) ↦ elim (Option-cases (find? (λ x. x.key == a.key) schema)) [
          | inl unlisted ↦ absurd (ground arith)
          | inr (x, listed) ↦
              let (stored, fits) =
                S.device_repository.find_one-some (λ y. y.id == id && y.user_id == user_id)
                  w.devices r found in
              let valid : is_invalid_value x a.value ≡ false = ground arith in
              let is : r ≡ d = ground arith in
              rw (← is) (record {
                template = t;
                schema = schema;
                definition = x;
                stored = stored;
                named = ground (arith, eq_iff r.id id);
                owned = ground (arith, eq_iff r.user_id user_id);
                templated = templated;
                has_schema = has;
                listed = listed;
                taken = valid-taken x a.value valid;
                reachable = λ e. ground arith;
              })
        ]
      ]
    ]
  ]

  pub IsCommand-action_target :
      (user_id id : Text) (a : DeviceAction) (w : World S) (d : Device)
      → IsCommand user_id id a w d
      → action_target user_id id a w ≡ ok d
  unfolding action_target
  IsCommand-action_target user_id id a w d h =
      let mine : (d.id == id && d.user_id == user_id) ≡ true =
        ground (arith, h.named, h.owned, eq_iff d.id id, eq_iff d.user_id user_id) in
      let valid = taken-valid h.definition a.value h.taken in
      elim (Option-cases (find_owned user_id id w)) [
        | inl lost ↦ absurd (
            ground (
              arith,
              S.device_repository.find_one-none (λ y. y.id == id && y.user_id == user_id) w.devices
                  d.id d lost h.stored,
            ))
        | inr (r, found) ↦
            let (stored, fits) =
              S.device_repository.find_one-some (λ y. y.id == id && y.user_id == user_id) w.devices
                r found in
            let key : r.id ≡ d.id = ground (arith, eq_iff r.id id, h.named) in
            let is : r ≡ d = ground (arith, rw key at stored, h.stored) in
            let open_channel : is_uncommandable d.push_channel ≡ false =
              ground (arith, h.reachable) in
            rw (found, is, h.templated, h.has_schema, h.listed, valid, open_channel, action_target)
              refl
      ]
