-- ===== src/Operator/Namespaces.antt =====
-- What the operator takes for the namespaces to watch.
use Prim.Native.Char.{char}
use scm_metrics_exporter.Prelude.{
  String, ◌≡◌, refl, sym, ◌∙◌, ◌⊎◌, eq_of_beq, inl, inr, Bool, true, false, not, ◌||◌, List, [],
  ◌∷◌, ◌++◌, map, filter, any, is_empty, contains, contains-append, IsDistinct, ◌==◌, string_eq,
  Bool-cases, arith,
}
use scm_metrics_exporter.Prelude.Errors.{Result, failed, Gives, Gives-map}
use scm_metrics_exporter.Prelude.Text.{Unicode}
use scm_metrics_exporter.Prelude.Text.Split.{split}
use scm_metrics_exporter.Prelude.Text.Trim.{trim_space}
use scm_metrics_exporter.Operator.{watch_parts, parse_watch_namespaces}

-- The names in a list of parts.
abbrev pub named : ⦃u : Unicode⦄ → List String → List String
named parts = filter (λ ns. not (ns == "")) (map trim_space parts)

snoc-IsDistinct :
    (xs : List String) (x : String)
    → IsDistinct xs
    → contains xs x ≡ false
    → IsDistinct (xs ++ x ∷ [])
snoc-IsDistinct [] x h k = (refl, tt)
snoc-IsDistinct (y ∷ ys) x (n, h) k = (
  rw (contains-append ys (x ∷ []) y, n) (apart (Bool-cases (x == y))),
  snoc-IsDistinct ys x h (ground arith),
)
  where
    apart : (x == y) ≡ true ⊎ (x == y) ≡ false → (x == y || false) ≡ false
    apart (inl e) = absurd (ground (arith, eq_of_beq x y e, k))
    apart (inr e) = rw e refl

covered :
    (old names : List String) (x a : String)
    → contains old x ≡ true
    → (contains old a || contains names a) ≡ (contains old a || (x == a || contains names a))
covered old names x a h = elim (Bool-cases (x == a)) [
  | inl e ↦ rw (e, sym (eq_of_beq x a e), h) refl
  | inr e ↦ rw e refl
]

module _ ⦃u : Unicode⦄ (label_errors : String → List String) where
  abbrev pub refused : String → Bool
  refused ns = not (is_empty (label_errors ns))

  -- No duplicates, and the members of two lists.
  abbrev pub Collects : List String → List String → List String → Type 0
  Collects old new result =
      IsDistinct result × ((a : String) → contains result a ≡ (contains old a || contains new a))

  abbrev Answer : List String → List String → Result (List String) → Type 0
  Answer old names r = (failed r ≡ any refused names) × Gives (Collects old names) r

  watch_parts_lem :
      (seen ns parts : List String)
      → ((a : String) → contains seen a ≡ contains ns a)
      → IsDistinct ns
      → Answer ns (named parts) (watch_parts label_errors seen ns parts)
  unfolding watch_parts
  watch_parts_lem seen ns [] same d = (refl, (d, λ a. ground arith))
  watch_parts_lem seen ns (p ∷ ps) same d = elim (Bool-cases (trim_space p == "")) [
    | inl e ↦ rw e (watch_parts_lem seen ns ps same d)
    | inr e ↦ rw e (elim (Bool-cases (refused (trim_space p))) [
      | inl f ↦ rw f (refl, tt)
      | inr f ↦ rw f (elim (Bool-cases (contains seen (trim_space p))) [
        | inl g ↦ rw g (
            let (all, good) = watch_parts_lem seen ns ps same d in
            (
              all,
              Gives-map (Collects ns (named ps)) (Collects ns (trim_space p ∷ named ps))
                  (λ r (h, k). (
                    h,
                    λ a.
                        k a
                        ∙ covered ns (named ps) (trim_space p) a (sym (same (trim_space p)) ∙ g),
                  ))
                  _ good,
            ))
        | inr g ↦ rw g (
            let x = trim_space p in
            let (all, good) =
              watch_parts_lem (x ∷ seen) (ns ++ x ∷ []) ps
                (λ a. ground (arith, same a, contains-append ns (x ∷ []) a))
                (snoc-IsDistinct ns x d (sym (same x) ∙ g)) in
            (
              all,
              Gives-map (Collects (ns ++ x ∷ []) (named ps)) (Collects ns (x ∷ named ps))
                  (λ r (h, k). (h, λ a. ground (arith, k a, contains-append ns (x ∷ []) a))) _ good,
            ))
      ])
    ])
  ]

  -- The value of --watch-namespaces is refused exactly if one of the names between its commas,
  -- trimmed and not empty, is no label. Otherwise the namespaces are those names, each once.
  pub parse_watch_namespaces_lem :
      (value : String)
      → (failed (parse_watch_namespaces label_errors value)
          ≡ any refused (named (split (char 44 tt) value)))
        × Gives
            (Collects [] (named (split (char 44 tt) value)))
            (parse_watch_namespaces label_errors value)
  unfolding parse_watch_namespaces
  parse_watch_namespaces_lem value = watch_parts_lem [] [] (split (char 44 tt) value) (λ a. refl) tt
