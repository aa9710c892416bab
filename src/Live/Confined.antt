-- ===== src/Live/Confined.antt =====
-- A dashboard's stream carries the events of the devices that it asked for and may see, and of no other.
use aio_t_cloud.Base.{
  Text, ◌==◌, eq_iff, true, some, is_some, List, [], ◌∷◌, Memᴰ, All, All-self, is_empty, ◌≡◌, ◌⊎◌,
  ◌∙◌, refl, any, sym, ap, arith, inl, inr, Bool-cases, Option-cases,
}
use aio_t_cloud.Entities.{Device}
use aio_t_cloud.Dict.{Dict, lookup, insert, lookup-insert}
use aio_t_cloud.Scope.{AccessScope}
use aio_t_cloud.Database.{Store, World, Event, device_row}
use aio_t_cloud.Live.Visible.{IsVisible, in_scope-IsVisible}
use aio_t_cloud.Live.{
  entity_ids, subject, renamed, is_live, is_wanted, frame_of, frames_of,
  resolve_entity_id_by_physical_device_id, stream_device_events,
}

-- An entry of the map is an old one, or one of a listed device.
entity_ids-some :
    (P : Device → Type 0) (ds : List Device) (m : Dict Text) (k v : Text)
    → All P ds
    → lookup k (entity_ids m ds) ≡ some v
    → (lookup k m ≡ some v) ⊎ ((d : Device) × P d × (d.device_id ≡ k) × (d.id ≡ v))
unfolding entity_ids
entity_ids-some P [] m k v h e = inl e
entity_ids-some P (d ∷ ds) m k v (h, hs) e =
    elim (entity_ids-some P ds (insert d.device_id d.id m) k v hs e) [
      | inr later ↦ inr later
      | inl now ↦ elim (Bool-cases (d.device_id == k)) [
        | inl here ↦ inr (
          d,
          h,
          (eq_iff d.device_id k).0 here,
          ground (arith, lookup-insert d.device_id k d.id m),
        )
        | inr other ↦ inl (ground (arith, lookup-insert d.device_id k d.id m))
      ]
    ]

-- The map has an entry for each listed device.
entity_ids-keeps :
    (ds : List Device) (m : Dict Text) (k : Text)
    → is_some (lookup k m) ≡ true
    → is_some (lookup k (entity_ids m ds)) ≡ true
unfolding entity_ids
entity_ids-keeps [] m k h = h
entity_ids-keeps (d ∷ ds) m k h =
    entity_ids-keeps ds (insert d.device_id d.id m) k
      (ground (arith, lookup-insert d.device_id k d.id m))

entity_ids-mem :
    (ds : List Device) (m : Dict Text) (d : Device)
    → Memᴰ d ds
    → is_some (lookup d.device_id (entity_ids m ds)) ≡ true
unfolding entity_ids
entity_ids-mem [] m d h = elim h [ ]
entity_ids-mem (x ∷ ds) m d (Memᴰ.head e) = rw e (
    entity_ids-keeps ds (insert x.device_id x.id m) x.device_id (
      ground (arith, lookup-insert x.device_id x.device_id x.id m, eq_iff x.device_id x.device_id)))
entity_ids-mem (x ∷ ds) m d (Memᴰ.tail h) = entity_ids-mem ds (insert x.device_id x.id m) d h

frame_of-some :
    (m : Dict Text) (e f : Event)
    → frame_of m e ≡ some f
    → (v : Text) × (lookup (subject e) m ≡ some v) × (f ≡ renamed v e)
frame_of-some m e f h = elim (Option-cases (lookup (subject e) m)) [
  | inl none_there ↦ absurd (ground arith)
  | inr (v, there) ↦ (v, there, ground arith)
]

module _ {S : Store} (scope : AccessScope) (ids : List Text) (w : World S) where
  -- A frame of the stream: an event of a stored device that was asked for and is in the scope, under
  -- the id that it was asked for by.
  pub record IsAllowed (es : List Event) (f : Event) : Type 0 where
    pub device : Device
    pub event : Event
    pub stored : device_row device.id w ≡ some device
    pub wanted : any (λ i. i == device.id) ids ≡ true
    pub visible : IsVisible scope device
    pub emitted : Memᴰ event es
    pub about : subject event ≡ device.device_id
    pub shown : f ≡ renamed device.id event

  resolved-some :
      (k v : Text)
      → lookup k (resolve_entity_id_by_physical_device_id scope ids w) ≡ some v
      → (d : Device) × ((device_row d.id w ≡ some d) × (is_wanted scope ids d ≡ true))
        × (d.device_id ≡ k)
        × (d.id ≡ v)
  unfolding resolve_entity_id_by_physical_device_id lookup
  resolved-some k v h = elim (Bool-cases (is_empty ids)) [
    | inl none_asked ↦ absurd (ground arith)
    | inr asked ↦
        elim (entity_ids-some _ (S.device_repository.find (is_wanted scope ids) w.devices) [] k v
          (S.device_repository.find_sound (is_wanted scope ids) w.devices) (rw asked at h)) [
            | inl old ↦ absurd (ground arith)
            | inr found ↦ found
          ]
  ]

  frames_of-IsAllowed :
      (es all : List Event)
      → All (λ e. Memᴰ e all) es
      → All (IsAllowed all) (frames_of (resolve_entity_id_by_physical_device_id scope ids w) es)
  frames_of-IsAllowed [] all h = tt
  frames_of-IsAllowed (e ∷ es) all (h, hs) =
      let m : Dict Text = resolve_entity_id_by_physical_device_id scope ids w in
      let rest = frames_of-IsAllowed es all hs in
      elim (Option-cases (frame_of m e)) [
        | inl dropped ↦ rw (dropped, frames_of) rest
        | inr (f, passed) ↦
            let (v, found, shown) = frame_of-some m e f passed in
            let (d, (stored, wanted), named, same) = resolved-some (subject e) v found in
            rw (passed, frames_of)
              (
                record {
                  device = d;
                  event = e;
                  stored = stored;
                  wanted = ground arith;
                  visible = in_scope-IsVisible scope d (ground arith);
                  emitted = h;
                  about = sym named;
                  shown = shown ∙ ap (λ i. renamed i e) (sym same);
                },
                rest,
              )
      ]

  asked_for :
      (d : Device)
      → device_row d.id w ≡ some d
      → is_wanted scope ids d ≡ true
      → is_some (lookup d.device_id (resolve_entity_id_by_physical_device_id scope ids w)) ≡ true
  unfolding resolve_entity_id_by_physical_device_id
  asked_for d stored wanted =
      let found = S.device_repository.find (is_wanted scope ids) w.devices in
      let here : is_some (lookup d.device_id (entity_ids [] found)) ≡ true =
        entity_ids-mem found [] d (
          S.device_repository.find_complete (is_wanted scope ids) w.devices d.id d stored wanted) in
      elim (Bool-cases (is_empty ids)) [
        | inl none_asked ↦ absurd (not_wanted ids d none_asked wanted)
        | inr asked ↦ rw asked here
      ]
    where
      not_wanted :
          (is : List Text) (d : Device) → is_empty is ≡ true → is_wanted scope is d ≡ true → ⊥
      not_wanted [] d h k = ground arith
      not_wanted (_ ∷ is) d h k = ground arith

  passes :
      (d : Device) (e : Event)
      → device_row d.id w ≡ some d
      → is_wanted scope ids d ≡ true
      → subject e ≡ d.device_id
      → is_live e ≡ true
      → is_some (frame_of (resolve_entity_id_by_physical_device_id scope ids w) e) ≡ true
  passes d e stored wanted about live =
      elim (Option-cases
        (lookup (subject e) (resolve_entity_id_by_physical_device_id scope ids w))) [
          | inl lost ↦ absurd (ground (arith, rw (← about) at (asked_for d stored wanted)))
          | inr (v, there) ↦ rw (live, there)
        ]

  frames_of-mem :
      (m : Dict Text) (es : List Event) (e f : Event)
      → Memᴰ e es
      → frame_of m e ≡ some f
      → Memᴰ f (frames_of m es)
  frames_of-mem m [] e f there passed = elim there [ ]
  frames_of-mem m (x ∷ es) e f (Memᴰ.head h) passed =
      let here : frame_of m x ≡ some f = ap (frame_of m) (sym h) ∙ passed in
      rw (here, frames_of) (Memᴰ.head refl)
  frames_of-mem m (x ∷ es) e f (Memᴰ.tail there) passed =
      let rest = frames_of-mem m es e f there passed in
      elim (Option-cases (frame_of m x)) [
        | inl dropped ↦ rw (dropped, frames_of) rest
        | inr (g, kept) ↦ rw (kept, frames_of) (Memᴰ.tail rest)
      ]

  carried :
      (es : List Event) (d : Device) (e : Event)
      → device_row d.id w ≡ some d
      → is_wanted scope ids d ≡ true
      → Memᴰ e es
      → subject e ≡ d.device_id
      → is_live e ≡ true
      → (f : Event) × (v : Text) × Memᴰ f (stream_device_events scope ids w es) × (f ≡ renamed v e)
  unfolding stream_device_events
  carried es d e stored wanted there about live =
      let m : Dict Text = resolve_entity_id_by_physical_device_id scope ids w in
      elim (Option-cases (frame_of m e)) [
        | inl lost ↦ absurd (let k = passes d e stored wanted about live in ground (arith, k))
        | inr (f, passed) ↦
            let (v, _, shown) = frame_of-some m e f passed in
            (f, v, frames_of-mem m es e f there passed, shown)
      ]

  -- The stream of a dashboard holds only events of stored devices that it asked for and that its scope
  -- lets it see, each under the id that the device was asked for by. Every event of such a device is in
  -- the stream, under some id, unless it is an alert.
  pub stream_device_events_lem :
      (es : List Event)
      → All (IsAllowed es) (stream_device_events scope ids w es)
        × ((d : Device) (e : Event)
            → device_row d.id w ≡ some d
            → is_wanted scope ids d ≡ true
            → Memᴰ e es
            → subject e ≡ d.device_id
            → is_live e ≡ true
            → (f : Event) × (v : Text) × Memᴰ f (stream_device_events scope ids w es)
              × (f ≡ renamed v e))
  unfolding stream_device_events
  stream_device_events_lem es = (frames_of-IsAllowed es es (All-self es), carried es)
