-- ===== src/Notification/Templates.antt =====
-- `renderTemplate`. The replacement text of `replaceAll` is itself a pattern of the language: in it `$$`,
-- `$&`, a dollar before a backtick and a dollar before `'` stand for a dollar, the match, and the text
-- before and after the match.
use aio_t_cloud.Base.{
  Text, codes, ◌++◌, ℕ, zero, suc, Bool, true, false, ◌||◌, none, some, is_some, [], ◌∷◌, nat_eq,
  if◌then◌else◌, ◌≡◌, refl,
}
use aio_t_cloud.Topics.{strip_prefix}

abbrev pub placeholder : Text
placeholder = codes "{{message}}"

abbrev pub dollar : ℕ
dollar = b'$'

-- What a `$` and the unit after it stand for.
unfoldable pub escape : Text → Text → ℕ → Text
escape before after c =
    if nat_eq c dollar
    then dollar ∷ []
    else if nat_eq c b'&'
    then placeholder
    else if nat_eq c 0x60
    then before
    else if nat_eq c 0x27
    then after
    else dollar ∷ c ∷ []

-- The replacement of one match, between the texts before and after it.
unfoldable pub expand : Text → Text → Text → Text
unfolding escape
expand before after [] = []
expand before after (c ∷ []) = c ∷ []
expand before after (c ∷ d ∷ s) = elim (nat_eq c dollar) [
  | true ↦ escape before after d ++ expand before after s
  | false ↦ c ∷ expand before after (d ∷ s)
]

-- `text.includes('{{message}}')`
unfoldable pub has_placeholder : Text → Bool
unfolding strip_prefix
has_placeholder [] = false
has_placeholder (c ∷ s) = is_some (strip_prefix placeholder (c ∷ s)) || has_placeholder s

-- `text.replaceAll('{{message}}', message)`; `skip` units belong to the last match, and `before` is what
-- has been read.
unfoldable pub replace_from : Text → ℕ → Text → Text → Text
unfolding expand strip_prefix
replace_from message skip before [] = []
replace_from message (suc skip) before (c ∷ s) = replace_from message skip (before ++ (c ∷ [])) s
replace_from message zero before (c ∷ s) = elim (strip_prefix placeholder (c ∷ s)) [
  | none ↦ c ∷ replace_from message zero (before ++ (c ∷ [])) s
  | some after ↦ expand before after message ++ replace_from message 10 (before ++ (c ∷ [])) s
]

-- `renderTemplate`
unfoldable pub render_template : Text → Text → Text
unfolding has_placeholder replace_from
render_template template message =
    if has_placeholder template then replace_from message zero [] template else template

rendered_twice :
    render_template (codes "a {{message}} b {{message}}") (codes "hot") ≡ codes "a hot b hot"
unfolding render_template
rendered_twice = refl

dollars_lost :
    render_template (codes "!{{message}}") (codes "$$5 $& $1") ≡ codes "!$5 {{message}} $1"
unfolding render_template
dollars_lost = refl
