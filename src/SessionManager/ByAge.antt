-- ===== src/SessionManager/ByAge.antt =====
-- The list of keys by age: facts about compactLocked and replaceByAgeLocked of
-- session_manager_registry.go as operations on a list of keys.
use copilot_openai_proxy.Base.{
  ◌≡◌, refl, Bool, true, false, ◌&&◌, List, [], ◌∷◌, arith, keep, if◌then◌else◌,
}
use copilot_openai_proxy.Base.Text.{Text, text_eq, text_eq_iff}
use copilot_openai_proxy.Base.Distinct.{elem, Distinct}
use copilot_openai_proxy.SessionManager.Registry.{replace_by_age}

pub elem-keep :
    (p : Text → Bool) (k : Text) (ids : List Text) → elem k (keep p ids) ≡ (elem k ids && p k)
unfolding elem
elem-keep p k [] = refl
elem-keep p k (i ∷ ids) = ground (arith, elem-keep p k ids, text_eq_iff i k)

pub keep-Distinct : (p : Text → Bool) (ids : List Text) → Distinct ids → Distinct (keep p ids)
keep-Distinct p [] d = tt
keep-Distinct p (i ∷ ids) d = ground (arith, keep-Distinct p ids d.1, elem-keep p i ids)

pub elem-replace_by_age :
    (from to k : Text) (ids : List Text)
    → Distinct ids
    → elem to ids ≡ false
    → elem k (replace_by_age from to ids)
      ≡ (if text_eq to k then true else if text_eq from k then false else elem k ids)
unfolding elem replace_by_age
elem-replace_by_age from to k [] d h = ground arith
elem-replace_by_age from to k (i ∷ ids) d h = ground (
  arith,
  elem-replace_by_age from to k ids d.1,
  text_eq_iff i from,
  text_eq_iff from k,
  text_eq_iff to k,
  text_eq_iff i k,
  text_eq_iff i to,
)

pub replace_by_age-Distinct :
    (from to : Text) (ids : List Text)
    → Distinct ids
    → elem to ids ≡ false
    → Distinct (replace_by_age from to ids)
unfolding elem replace_by_age
replace_by_age-Distinct from to [] d h = ground arith
replace_by_age-Distinct from to (i ∷ ids) d h = ground (
  arith,
  replace_by_age-Distinct from to ids d.1,
  elem-replace_by_age from to i ids d.1,
  text_eq_iff i from,
  text_eq_iff to i,
  text_eq_iff i to,
)
