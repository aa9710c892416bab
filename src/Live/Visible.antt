-- ===== src/Live/Visible.antt =====
-- What a reader may see of the devices, said without the query: src/common/access-scope.util.ts, and the
-- data of a socket in src/modules/websocket/app.gateway.ts.
use aio_t_cloud.Constants.{RoleType, root, user, admin, guest}
use aio_t_cloud.Live.{SocketData, resolve_scope_from_socket_data}
use aio_t_cloud.Base.{
  Text, eq_iff, true, false, Option, none, some, ◌≢◌, ap, is_truthy, [], ◌∷◌, ◌≡◌, ◌⊎◌, ◌∙◌, refl,
  arith, inl, inr, Bool-cases, Option-cases,
}
use aio_t_cloud.Entities.{Device}
use aio_t_cloud.Scope.{AccessScope, unrestricted, of_user, of_factory, in_scope}

-- A guest sees every device, a member of a factory those of the factory, and another user those of his own.
abbrev pub IsVisible : AccessScope → Device → Type 0
IsVisible unrestricted d = Unit
IsVisible (of_user u) d = d.user_id ≡ u
IsVisible (of_factory f) d = d.factory_id ≡ some f

factory_is : (f : Text) (o : Option Text) → in_scope (of_factory f) [] o ≡ true → o ≡ some f
factory_is f none h = absurd (ground arith)
factory_is f (some g) h = ap some ((eq_iff g f).0 h)

pub in_scope-IsVisible :
    (scope : AccessScope) (d : Device)
    → in_scope scope d.user_id d.factory_id ≡ true
    → IsVisible scope d
in_scope-IsVisible unrestricted d h = tt
in_scope-IsVisible (of_user u) d h = (eq_iff d.user_id u).0 h
in_scope-IsVisible (of_factory f) d h = factory_is f d.factory_id h

-- No factory, or one whose id is the empty text.
abbrev pub IsWithoutFactory : SocketData → Type 0
IsWithoutFactory h = (h.factory_id ≡ none) ⊎ (h.factory_id ≡ some [])

-- What the data of a socket lets it see: everything, as long as there is no data; afterwards what a guest,
-- a member of a factory, or a user without one, may see.
abbrev pub IsSeenBy : Option SocketData → Device → Type 0
IsSeenBy none d = Unit
IsSeenBy (some h) d =
    (h.role ≡ guest)
    ⊎ (((f : Text) × (h.factory_id ≡ some f) × (d.factory_id ≡ some f))
        ⊎ (IsWithoutFactory h × (d.user_id ≡ h.user_id)))

RoleType-guest : (r : RoleType) → (r ≡ guest) ⊎ (r ≢ guest)
RoleType-guest guest = inl refl
RoleType-guest root = inr (ground arith)
RoleType-guest user = inr (ground arith)
RoleType-guest admin = inr (ground arith)

unnamed_empty : (f : Text) → is_truthy f ≡ false → f ≡ []
unnamed_empty [] h = refl
unnamed_empty (c ∷ f) h = absurd (ground arith)

pub in_scope-IsSeenBy :
    (o : Option SocketData) (d : Device)
    → in_scope (resolve_scope_from_socket_data o) d.user_id d.factory_id ≡ true
    → IsSeenBy o d
unfolding resolve_scope_from_socket_data
in_scope-IsSeenBy none d h = tt
in_scope-IsSeenBy (some s) d h = elim (RoleType-guest s.role) [
  | inl is_guest ↦ inl is_guest
  | inr other ↦ elim (Option-cases s.factory_id) [
    | inl alone ↦ inr (inr (inl alone, (eq_iff d.user_id s.user_id).0 (ground arith)))
    | inr (f, member) ↦ elim (Bool-cases (is_truthy f)) [
      | inl named ↦ inr (inl (f, member, factory_is f d.factory_id (ground arith)))
      | inr unnamed ↦ inr (
          inr (
            inr (member ∙ ap some (unnamed_empty f unnamed)),
            (eq_iff d.user_id s.user_id).0 (ground arith),
          ))
    ]
  ]
]
