-- ===== src/Response.antt =====
-- The answer of a service: src/common/dto/response-core.dto.ts. `ok` is `ResponseCore.ok(data)`, and
-- `fail` is `ResponseCore.fail(error, message)`.
use aio_t_cloud.Base.{Text, Bool, true, false, Option, none, some, ◌≡◌, ◌⊎◌, inl, inr, refl}
use aio_t_cloud.Constants.{ErrorCode, not_found}

pub data Response (A : Type 0) : Type 0 where
  ok : A → Response A
  fail : ErrorCode → Text → Response A

-- An early `return ResponseCore.fail(...)`, and what follows it.
infixl 5 ◌>>=◌ ◌>>◌
abbrev pub ◌>>=◌ : {A B : Type 0} → Response A → (A → Response B) → Response B
ok a >>= f = f a
fail e m >>= f = fail e m

abbrev pub ◌>>◌ : {B : Type 0} → Response (Unit {0}) → Response B → Response B
r >> k = r >>= λ _. k

-- `if (bad) { return ResponseCore.fail(e, m); }`
abbrev pub fail_if : Bool → ErrorCode → Text → Response (Unit {0})
fail_if true e m = fail e m
fail_if false e m = ok tt

-- `if (!row) { return ResponseCore.fail(NOT_FOUND, m); }`
abbrev pub found : {A : Type 0} → Option A → Text → Response A
found none m = fail not_found m
found (some a) m = ok a

abbrev pub is_ok : {A : Type 0} → Response A → Bool
is_ok (ok _) = true
is_ok (fail _ _) = false

pub Response-cases :
    {A : Type 0} (r : Response A)
    → ((a : A) × (r ≡ ok a)) ⊎ ((e : ErrorCode) × (m : Text) × (r ≡ fail e m))
Response-cases (ok a) = inl (a, refl)
Response-cases (fail e m) = inr (e, m, refl)
