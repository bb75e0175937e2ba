-- ===== src/Hosts/ConnErrors/Classes.antt =====
-- `ParseConError` finds a known error whenever one is there, and never looks at the cause.
use armiarma.Base.{ℕ, String, ◌≡◌, refl, ◌⊎◌, inl, inr, true, false, List, [], ◌∷◌, Bool-cases, All}
use armiarma.Base.Text.{contains}
use armiarma.Hosts.ConnErrors.{
  Known, ConnError, error_text, find_known, parse_con_error, plain, dial_error,
  dial_error_caused_by,
}

-- An entry of the list with the key, whose text occurs in the given one.
abbrev pub Explains : Known → List ℕ → String → Type 0
Explains [] text key = ⊥
Explains ((k, sub) ∷ m) text key = (k ≡ key) × (contains text sub ≡ true) ⊎ Explains m text key

-- No text of the list occurs in the given one.
abbrev pub Foreign : Known → List ℕ → Type 0
Foreign order text = All (λ e. contains text e.1 ≡ false) order

find_known_lem :
    (order : Known) (text : List ℕ)
    → Explains order text (find_known order text)
      ⊎ ((find_known order text ≡ "unknown") × Foreign order text)
unfolding find_known
find_known_lem [] text = inr (refl, tt)
find_known_lem ((k, sub) ∷ m) text = elim (Bool-cases (contains text sub)) [
  | inl e ↦ rw e (inl (inl (refl, refl)))
  | inr e ↦ elim (find_known_lem m text) [
    | inl x ↦ rw e (inl (inr x))
    | inr (u, f) ↦ rw e (inr (u, (refl, f)))
  ]
]

-- The cause of a dial error is never looked at: the class is that of the outer text alone, so the
-- branch for nested errors is dead.
pub parse_con_error-find_known :
    (order : Known) (e : ConnError) → parse_con_error order e ≡ find_known order (error_text e)
unfolding parse_con_error
parse_con_error-find_known order (plain t) = refl
parse_con_error-find_known order (dial_error t) = refl
parse_con_error-find_known order (dial_error_caused_by t c) = refl

-- In whatever order the known errors are visited, the class of an error is the key of a known error whose
-- text occurs in that of the error, or it is "unknown" and no known text occurs there.
pub parse_con_error_lem :
    (order : Known) (e : ConnError)
    → Explains order (error_text e) (parse_con_error order e)
      ⊎ ((parse_con_error order e ≡ "unknown") × Foreign order (error_text e))
parse_con_error_lem order e = rw parse_con_error-find_known (find_known_lem order (error_text e))
