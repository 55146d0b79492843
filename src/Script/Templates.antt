-- ===== src/Script/Templates.antt =====
-- The templates of the standard scripts, and the classification against them.
use blockchain_zc_parser.Base.{
  ℕ, ◌≡◌, ◌≢◌, ◌⊎◌, ◌↔◌, inl, inr, refl, sym, ap, ◌∙◌, subst, List, [], ◌∷◌, ◌++◌, length,
  append-nil, ◌==◌, ==_iff, if◌then◌else◌, Option, none, some,
}
use blockchain_zc_parser.Error.{ParseResult, ok}
use blockchain_zc_parser.Script.Classify.{
  ScriptType, p2pkh, p2sh, p2wpkh, p2wsh, p2tr, p2pk, op_return, multisig, unknown, strip_prefix,
  strip_suffix, between, arm, array, classify,
}
use blockchain_zc_parser.Script.Patterns.{strip_prefix-inv, strip_suffix-append, between-inv}

-- The scripts of each type. No script is classified as a multisig.
abbrev pub Template : ScriptType → List ℕ → Type 0
Template (p2pkh h) b = (length h ≡ 20) × (b ≡ 0x76 ∷ 0xa9 ∷ 0x14 ∷ (h ++ (0x88 ∷ 0xac ∷ [])))
Template (p2sh h) b = (length h ≡ 20) × (b ≡ 0xa9 ∷ 0x14 ∷ (h ++ (0x87 ∷ [])))
Template (p2wpkh h) b = (length h ≡ 20) × (b ≡ 0x00 ∷ 0x14 ∷ h)
Template (p2wsh h) b = (length h ≡ 32) × (b ≡ 0x00 ∷ 0x20 ∷ h)
Template (p2tr k) b = (length k ≡ 32) × (b ≡ 0x51 ∷ 0x20 ∷ k)
Template (p2pk k) b =
    (length k ≡ 33) × (b ≡ 0x21 ∷ (k ++ (0xac ∷ [])))
    ⊎ (length k ≡ 65) × (b ≡ 0x41 ∷ (k ++ (0xac ∷ [])))
Template (op_return rest) b = b ≡ 0x6a ∷ rest
Template (multisig m n) b = ⊥
Template unknown b = ⊥

-- The arms on their own templates.
between_back :
    (m back : List ℕ) (n : ℕ)
    → length m ≡ n
    → (elim (strip_suffix back (m ++ back)) [
      | none ↦ none
      | some middle ↦ if length middle == n then some middle else none
    ])
      ≡ some m
between_back m back n l = rw (strip_suffix-append m back) (rw ((==_iff (length m) n).1 l))

between_all :
    (m : List ℕ) (n : ℕ)
    → length m ≡ n
    → (elim (strip_suffix [] m) [
      | none ↦ none
      | some middle ↦ if length middle == n then some middle else none
    ])
      ≡ some m
between_all m n l = rw (whole) (rw ((==_iff (length m) n).1 l))
  where
    whole : strip_suffix [] m ≡ some m
    whole = subst (λ r. strip_suffix [] r ≡ some m) (append-nil m) (strip_suffix-append m [])

ok_inj : {s s' : ScriptType} → ok s ≡ ok s' → s ≡ s'
ok_inj e = cc

array-ok : (n : ℕ) (f : List ℕ → ScriptType) (h : List ℕ) → length h ≡ n → array n f h ≡ ok (f h)
array-ok n f h l = rw ((==_iff (length h) n).1 l)

classify_complete : (s : ScriptType) (b : List ℕ) → Template s b → classify b ≡ ok s
unfolding classify
classify_complete (p2pkh h) b (l, e) =
    rw (e, between_back h (0x88 ∷ 0xac ∷ []) 20 l) (array-ok 20 p2pkh h l)
classify_complete (p2sh h) b (l, e) = rw (e, between_back h (0x87 ∷ []) 20 l) (array-ok 20 p2sh h l)
classify_complete (p2wpkh h) b (l, e) = rw (e, between_all h 20 l) (array-ok 20 p2wpkh h l)
classify_complete (p2wsh h) b (l, e) = rw (e, between_all h 32 l) (array-ok 32 p2wsh h l)
classify_complete (p2tr k) b (l, e) = rw (e, between_all k 32 l) (array-ok 32 p2tr k l)
classify_complete (p2pk k) b (inl (l, e)) = rw (e, between_back k (0xac ∷ []) 33 l) refl
classify_complete (p2pk k) b (inr (l, e)) = rw (e, between_back k (0xac ∷ []) 65 l) refl
classify_complete (op_return rest) b e = rw e refl
classify_complete (multisig m n) b t = elim t [ ]
classify_complete unknown b t = elim t [ ]

-- What an arm with a guard gives: its own type on its own template, or what the next arms give.
fixed_arm :
    (front back : List ℕ) (n : ℕ) (f : List ℕ → ScriptType) (b : List ℕ) (s : ScriptType)
    (next : ParseResult ScriptType)
    → arm (between front back n b) (array n f) next ≡ ok s
    → ((m : List ℕ) × (length m ≡ n) × (b ≡ front ++ (m ++ back)) × (f m ≡ s)) ⊎ (next ≡ ok s)
fixed_arm front back n f b s next = given (between front back n b) refl
  where
    given :
        (o : Option (List ℕ))
        → between front back n b ≡ o
        → arm o (array n f) next ≡ ok s
        → ((m : List ℕ) × (length m ≡ n) × (b ≡ front ++ (m ++ back)) × (f m ≡ s)) ⊎ (next ≡ ok s)
    given none q p = inr p
    given (some m) q p =
        let (l, e) = between-inv front back n b m q in
        let found : ok (f m) ≡ ok s = sym (array-ok n f m l) ∙ p in inl (m, l, e, cc)

sized_arm :
    (front back : List ℕ) (n : ℕ) (f : List ℕ → ScriptType) (b : List ℕ) (s : ScriptType)
    (next : ParseResult ScriptType)
    → arm (between front back n b) (λ m. ok (f m)) next ≡ ok s
    → ((m : List ℕ) × (length m ≡ n) × (b ≡ front ++ (m ++ back)) × (f m ≡ s)) ⊎ (next ≡ ok s)
sized_arm front back n f b s next = given (between front back n b) refl
  where
    given :
        (o : Option (List ℕ))
        → between front back n b ≡ o
        → arm o (λ m. ok (f m)) next ≡ ok s
        → ((m : List ℕ) × (length m ≡ n) × (b ≡ front ++ (m ++ back)) × (f m ≡ s)) ⊎ (next ≡ ok s)
    given none q p = inr p
    given (some m) q p = let (l, e) = between-inv front back n b m q in inl (m, l, e, cc)

last_arm :
    (b : List ℕ) (s : ScriptType)
    → arm (strip_prefix (0x6a ∷ []) b) (λ rest. ok (op_return rest)) (ok unknown) ≡ ok s
    → Template s b ⊎ (s ≡ unknown)
last_arm b s = given (strip_prefix (0x6a ∷ []) b) refl
  where
    given :
        (o : Option (List ℕ))
        → strip_prefix (0x6a ∷ []) b ≡ o
        → arm o (λ rest. ok (op_return rest)) (ok unknown) ≡ ok s
        → Template s b ⊎ (s ≡ unknown)
    given none q p = inr cc
    given (some rest) q p =
        inl (subst (λ s'. Template s' b) (ok_inj p) (strip_prefix-inv (0x6a ∷ []) b rest q))

carried :
    (f : List ℕ → ScriptType) (m b : List ℕ) (s : ScriptType)
    → Template (f m) b
    → f m ≡ s
    → Template s b ⊎ (s ≡ unknown)
carried f m b s t e = inl (subst (λ s'. Template s' b) e t)

classify_sound : (s : ScriptType) (b : List ℕ) → classify b ≡ ok s → Template s b ⊎ (s ≡ unknown)
unfolding classify
classify_sound s b h =
    elim (fixed_arm (0x76 ∷ 0xa9 ∷ 0x14 ∷ []) (0x88 ∷ 0xac ∷ []) 20 p2pkh b s _ h) [
      | inl (m, l, e, q) ↦ carried p2pkh m b s (l, e) q
      | inr h1 ↦ elim (fixed_arm (0xa9 ∷ 0x14 ∷ []) (0x87 ∷ []) 20 p2sh b s _ h1) [
        | inl (m, l, e, q) ↦ carried p2sh m b s (l, e) q
        | inr h2 ↦ elim (fixed_arm (0x00 ∷ 0x14 ∷ []) [] 20 p2wpkh b s _ h2) [
          | inl (m, l, e, q) ↦ carried p2wpkh m b s (l, bare e) q
          | inr h3 ↦ elim (fixed_arm (0x00 ∷ 0x20 ∷ []) [] 32 p2wsh b s _ h3) [
            | inl (m, l, e, q) ↦ carried p2wsh m b s (l, bare e) q
            | inr h4 ↦ elim (fixed_arm (0x51 ∷ 0x20 ∷ []) [] 32 p2tr b s _ h4) [
              | inl (m, l, e, q) ↦ carried p2tr m b s (l, bare e) q
              | inr h5 ↦ elim (sized_arm (0x21 ∷ []) (0xac ∷ []) 33 p2pk b s _ h5) [
                | inl (m, l, e, q) ↦ carried p2pk m b s (inl (l, e)) q
                | inr h6 ↦ elim (sized_arm (0x41 ∷ []) (0xac ∷ []) 65 p2pk b s _ h6) [
                  | inl (m, l, e, q) ↦ carried p2pk m b s (inr (l, e)) q
                  | inr h7 ↦ last_arm b s h7
                ]
              ]
            ]
          ]
        ]
      ]
    ]
  where
    bare : {x y : ℕ} {m : List ℕ} → b ≡ x ∷ y ∷ (m ++ []) → b ≡ x ∷ y ∷ m
    bare {x} {y} {m} e = e ∙ ap (λ r. x ∷ y ∷ r) (append-nil m)

-- For a type other than unknown, a script is classified as that type, without a panic, exactly when it
-- is an instance of the type's template: the opcodes of the type around a payload that it carries
-- unchanged, of 20 bytes for a hash of a key or a script, 32 for a witness script hash or a taproot
-- key, 33 or 65 for a bare key, and of any length behind OP_RETURN. No script is a multisig.
pub classify_iff : (s : ScriptType) (b : List ℕ) → s ≢ unknown → (classify b ≡ ok s) ↔ Template s b
classify_iff s b known = (
  λ h. elim (classify_sound s b h) [ inl t ↦ t | inr u ↦ elim (known u) [ ] ],
  classify_complete s b,
)

-- No arm panics.
fixed_arm-ok :
    (front back : List ℕ) (n : ℕ) (f : List ℕ → ScriptType) (b : List ℕ)
    (next : ParseResult ScriptType)
    → ((s : ScriptType) × (next ≡ ok s))
    → (s : ScriptType) × (arm (between front back n b) (array n f) next ≡ ok s)
fixed_arm-ok front back n f b next rest = given (between front back n b) refl
  where
    given :
        (o : Option (List ℕ))
        → between front back n b ≡ o
        → (s : ScriptType) × (arm o (array n f) next ≡ ok s)
    given none q = rest
    given (some m) q = (f m, array-ok n f m (between-inv front back n b m q).0)

sized_arm-ok :
    (o : Option (List ℕ)) (f : List ℕ → ScriptType) (next : ParseResult ScriptType)
    → ((s : ScriptType) × (next ≡ ok s))
    → (s : ScriptType) × (arm o (λ m. ok (f m)) next ≡ ok s)
sized_arm-ok none f next rest = rest
sized_arm-ok (some m) f next rest = (f m, refl)

pub classify-ok : (b : List ℕ) → (s : ScriptType) × (classify b ≡ ok s)
unfolding classify
classify-ok b = fixed_arm-ok (0x76 ∷ 0xa9 ∷ 0x14 ∷ []) (0x88 ∷ 0xac ∷ []) 20 p2pkh b _ (
    fixed_arm-ok (0xa9 ∷ 0x14 ∷ []) (0x87 ∷ []) 20 p2sh b _ (
      fixed_arm-ok (0x00 ∷ 0x14 ∷ []) [] 20 p2wpkh b _ (
        fixed_arm-ok (0x00 ∷ 0x20 ∷ []) [] 32 p2wsh b _ (
          fixed_arm-ok (0x51 ∷ 0x20 ∷ []) [] 32 p2tr b _ (
            sized_arm-ok (between (0x21 ∷ []) (0xac ∷ []) 33 b) p2pk _ (
              sized_arm-ok (between (0x41 ∷ []) (0xac ∷ []) 65 b) p2pk _
                (sized_arm-ok (strip_prefix (0x6a ∷ []) b) op_return _ (unknown, refl))))))))

-- A script is classified as unknown, without a panic, exactly when it is an instance of no template.
pub classify_unknown_iff :
    (b : List ℕ) → (classify b ≡ ok unknown) ↔ ((s : ScriptType) → ¬ Template s b)
classify_unknown_iff b = (apart, missed (classify-ok b))
  where
    apart : classify b ≡ ok unknown → (s : ScriptType) → ¬ Template s b
    apart h s t = subst (λ s'. Template s' b) (ok_inj (sym (classify_complete s b t) ∙ h)) t

    missed :
        ((s : ScriptType) × (classify b ≡ ok s))
        → ((s : ScriptType) → ¬ Template s b)
        → classify b ≡ ok unknown
    missed (s, h) none_of = elim (classify_sound s b h) [
      | inl t ↦ elim (none_of s t) [ ]
      | inr u ↦ h ∙ ap ok u
    ]
