-- ===== src/Script/Patterns.antt =====
-- The slice patterns of `ScriptType::classify`: what they match, and what they bind.
use blockchain_zc_parser.Base.{
  ℕ, ◌-◌, ◌≡◌, refl, ap, ◌∙◌, List, [], ◌∷◌, ◌++◌, length, length-append, drop, take-append,
  drop-append, take-append-drop, ◌==◌, le→leb, if◌then◌else◌, Option, none, some, arith,
}
use blockchain_zc_parser.Hash.{bytes_eq→eq, bytes_eq_refl}
use blockchain_zc_parser.Script.Classify.{strip_prefix, strip_suffix, between}

pub strip_prefix-inv :
    (front b rest : List ℕ) → strip_prefix front b ≡ some rest → b ≡ front ++ rest
unfolding strip_prefix
strip_prefix-inv [] b rest h = cc
strip_prefix-inv (x ∷ front) [] rest h = cc
strip_prefix-inv (x ∷ front) (y ∷ b) rest h = ground (arith, strip_prefix-inv front b rest)

strip_suffix-inv : (back b m : List ℕ) → strip_suffix back b ≡ some m → b ≡ m ++ back
unfolding strip_suffix
strip_suffix-inv back b m h =
    let n : ℕ = length b - length back in
    ground (arith, take-append-drop n b, bytes_eq→eq (drop n b) back)

pub strip_suffix-append : (m back : List ℕ) → strip_suffix back (m ++ back) ≡ some m
unfolding strip_suffix
strip_suffix-append m back =
    rw
      (
        le→leb (length back) (length (m ++ back)) (omega (arith, length-append m back)),
        at_end,
        drop-append m back,
        bytes_eq_refl back,
      )
      (ap some (take-append m back))
  where
    at_end : length (m ++ back) - length back ≡ length m
    at_end = omega (arith, length-append m back)

pub between-inv :
    (front back : List ℕ) (n : ℕ) (b m : List ℕ)
    → between front back n b ≡ some m
    → (length m ≡ n) × (b ≡ front ++ (m ++ back))
unfolding between
between-inv front back n b m h = outer (strip_prefix front b) refl h
  where
    tested :
        (k : List ℕ) → (if length k == n then some k else none) ≡ some m → (k ≡ m) × (length k ≡ n)
    tested k e = ground arith

    inner :
        (rest : List ℕ)
        → b ≡ front ++ rest
        → (o : Option (List ℕ)) → strip_suffix back rest ≡ o
        → (elim o [ none ↦ none | some middle ↦ if length middle == n then some middle else none ])
          ≡ some m
        → (length m ≡ n) × (b ≡ front ++ (m ++ back))
    inner rest e none q p = cc
    inner rest e (some k) q p =
        let (same, l) = tested k p in
        (
          rw (← same) l,
          e ∙ ap (λ r. front ++ r) (strip_suffix-inv back rest k q ∙ ap (λ r. r ++ back) same),
        )

    outer :
        (o : Option (List ℕ))
        → strip_prefix front b ≡ o
        → (elim o [
          | none ↦ none
          | some rest ↦ elim (strip_suffix back rest) [
            | none ↦ none
            | some middle ↦ if length middle == n then some middle else none
          ]
        ])
          ≡ some m
        → (length m ≡ n) × (b ≡ front ++ (m ++ back))
    outer none q p = cc
    outer (some rest) q p =
        inner rest (strip_prefix-inv front b rest q) (strip_suffix back rest) refl p
