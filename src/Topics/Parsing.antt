-- ===== src/Topics/Parsing.antt =====
-- The parts of the topic parsers: a prefix, a run of units, the device's name.
use aio_t_cloud.Base.{
  Text, codes, ◌++◌, ℕ, Bool, true, false, none, some, [], ◌∷◌, if◌then◌else◌, is_truthy, ◌≡◌, ◌∙◌,
  refl, arith, All, Bool-cases, inl, inr, sym, ap, Option-cases,
}
use aio_t_cloud.Topics.{device_and, strip_prefix, span, not_slash, device_then, device_topic, slash}

pub strip_prefix-append : (p s : Text) → strip_prefix p (p ++ s) ≡ some s
unfolding strip_prefix
strip_prefix-append [] s = refl
strip_prefix-append (c ∷ p) s = ground (arith, strip_prefix-append p s)

pub strip_prefix-some : (p s r : Text) → strip_prefix p s ≡ some r → s ≡ p ++ r
unfolding strip_prefix
strip_prefix-some [] s r h = ground arith
strip_prefix-some (c ∷ p) [] r h = ground arith
strip_prefix-some (c ∷ p) (d ∷ s) r h = ground (arith, strip_prefix-some p s r)

pub span-append : (p : ℕ → Bool) (s : Text) → (span p s).0 ++ (span p s).1 ≡ s
unfolding span
span-append p [] = refl
span-append p (c ∷ s) = elim (Bool-cases (p c)) [
  | inl more ↦ rw more (ap (λ t. c ∷ t) (span-append p s))
  | inr end ↦ rw end
]

pub span-All : (p : ℕ → Bool) (s : Text) → All (λ c. p c ≡ true) (span p s).0
unfolding span
span-All p [] = tt
span-All p (c ∷ s) = elim (Bool-cases (p c)) [
  | inl more ↦ rw more (more, span-All p s)
  | inr end ↦ rw end tt
]

-- A run that is followed by a unit which fails the test.
pub span_run :
    (p : ℕ → Bool) (run : Text) (c : ℕ) (rest : Text)
    → All (λ d. p d ≡ true) run
    → p c ≡ false
    → span p (run ++ (c ∷ rest)) ≡ (run, c ∷ rest)
unfolding span
span_run p [] c rest h e = rw e
span_run p (d ∷ run) c rest h e = rw (h.0, span_run p run c rest h.1 e)

-- A device's id that can stand in a topic.
abbrev pub IsTopicLevel : Text → Type 0
IsTopicLevel d = (is_truthy d ≡ true) × All (λ c. not_slash c ≡ true) d

-- The parser finds the device in a topic that is built from it.
pub device_then-topic :
    (rest : Text → Bool) (d : Text) (s : Text)
    → IsTopicLevel d
    → device_then rest (device_topic d (slash ∷ s)) ≡ (if rest (slash ∷ s) then some d else none)
unfolding device_then device_and
device_then-topic rest d s h =
    rw (span_run not_slash d slash s h.1 refl, device_then) (rw (h.0, device_and))

device_and-some :
    (rest : Text → Bool) (p : Text × Text) (d : Text)
    → device_and rest p ≡ some d
    → (p.0 ≡ d) × (is_truthy d ≡ true) × (rest p.1 ≡ true)
unfolding device_and
device_and-some rest (e, s) d h = elim (Bool-cases (is_truthy e)) [
  | inl named ↦ elim (Bool-cases (rest s)) [
    | inl fits ↦ ground arith
    | inr other ↦ absurd (ground arith)
  ]
  | inr unnamed ↦ absurd (ground arith)
]

-- What the parser accepts is such a topic.
pub device_then-some :
    (rest : Text → Bool) (topic d : Text)
    → device_then rest topic ≡ some d
    → (s : Text) × (topic ≡ device_topic d s) × (rest s ≡ true) × IsTopicLevel d
unfolding device_then
device_then-some rest topic d h = elim (Option-cases (strip_prefix (codes "devices/") topic)) [
  | inl other ↦ absurd (ground arith)
  | inr (s, e) ↦
      let (named, full, fits) = device_and-some rest (span not_slash s) d (ground arith) in
      (
        (span not_slash s).1,
        strip_prefix-some (codes "devices/") topic s e
            ∙ ap (λ t. codes "devices/" ++ t)
                (sym (span-append not_slash s) ∙ ap (λ t. t ++ (span not_slash s).1) named),
        fits,
        (full, rw named at (span-All not_slash s)),
      )
]
