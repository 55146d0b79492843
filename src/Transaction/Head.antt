-- ===== src/Transaction/Head.antt =====
-- The start of a transaction: how the first byte tells the two forms apart, and the input count.
use blockchain_zc_parser.Base.{
  ℕ, ◌≡◌, ◌≢◌, ◌⊎◌, inl, inr, refl, ap, ◌∙◌, List, [], ◌∷◌, ◌++◌, append_assoc, arith, Bool, true,
  false, if◌then◌else◌, not, ◌==◌, ==_iff,
}
use blockchain_zc_parser.Error.{invalid_segwit_flag}
use blockchain_zc_parser.Target.{Target}
use blockchain_zc_parser.Cursor.{read_varint}
use blockchain_zc_parser.Cursor.Format.{Format, Decodes}
use blockchain_zc_parser.Cursor.Rules.{Then, Nothing, bind-Decodes}
use blockchain_zc_parser.Cursor.Checks.{change-Decodes, if-Decodes, pure-Decodes, refuse_if-Decodes}
use blockchain_zc_parser.Cursor.Reads.{Byte, read_u8-Decodes}
use blockchain_zc_parser.Cursor.VarInt.{VarInt, VarTail, read_varint-Decodes, var_tail-Decodes}
use blockchain_zc_parser.Transaction.{varint_from_first, detect_segwit}
use blockchain_zc_parser.Transaction.Whole.{marker}

-- What is read behind the first byte `b` to tell the two forms apart.
abbrev pub Detected : ℕ → Format Bool
Detected b seg bs = (b ≡ 0) × (seg ≡ true) × (bs ≡ 0x01 ∷ []) ⊎ (b ≢ 0) × (seg ≡ false) × (bs ≡ [])

pub detect_segwit-Decodes : (t : Target) (b : ℕ) → Decodes t (detect_segwit t b) (Detected b)
unfolding detect_segwit
detect_segwit-Decodes t b =
    if-Decodes t (b == 0x00)
      (λ h.
        change-Decodes t
          (bind-Decodes t (read_u8-Decodes t) λ flag bs k.
            bind-Decodes t (refuse_if-Decodes t (not (flag == 0x01)) (invalid_segwit_flag flag))
              λ _ bs₂ k₂. pure-Decodes t true)
          (λ seg bs (flag, xs, ys, (o, e), (_, fs, gs, (k, e₁), (q, e₂), g₂), g).
            inl ((==_iff b 0).0 h, q, rw (g, e, g₂, e₁, e₂) (ap (λ n. n ∷ []) (is_one flag k))))
          (segwit h))
      (λ h.
        change-Decodes t (pure-Decodes t false) (λ seg bs (q, e). inr (λ z. ground arith, q, e))
          (legacy h))
  where
    is_one : (flag : ℕ) → not (flag == 0x01) ≡ false → flag ≡ 0x01
    is_one flag k = ground arith

    segwit :
        (b == 0) ≡ true
        → (seg : Bool) (bs : List ℕ) → Detected b seg bs
        → Then Byte
            (λ flag.
              Then {A = Unit {0}}
                (Nothing (λ _. not (flag == 0x01) ≡ false))
                (λ _. Nothing (λ a. a ≡ true)))
            seg
            bs
    segwit h seg bs (inl (z, q, e)) =
        (1, 1 ∷ [], [], ((omega arith), refl), (tt, [], [], (refl, refl), (q, refl), refl), e)
    segwit h seg bs (inr (z, q, e)) = absurd (z ((==_iff b 0).0 h))

    legacy :
        (b == 0) ≡ false
        → (seg : Bool) (bs : List ℕ) → Detected b seg bs
        → Nothing (λ a. a ≡ false) seg bs
    legacy h seg bs (inl (z, q, e)) = absurd (ground arith)
    legacy h seg bs (inr (z, q, e)) = (q, e)

-- The input count, by the form.
abbrev pub Counted : Bool → ℕ → Format ℕ
Counted true b = VarInt
Counted false b = VarTail b

pub counted-Decodes :
    (t : Target) (seg : Bool) (b : ℕ)
    → Decodes t (if seg then read_varint t else varint_from_first t b) (Counted seg b)
unfolding varint_from_first
counted-Decodes t true b = read_varint-Decodes t
counted-Decodes t false b = var_tail-Decodes t b

-- The first byte, the flag and the rest of the count make the marker and the count.
pub head_join :
    (seg : Bool) (b v : ℕ) (xs ys zs : List ℕ)
    → Byte b xs
    → Detected b seg ys
    → Counted seg b v zs
    → (cb : List ℕ) × VarInt v cb × (xs ++ (ys ++ zs) ≡ marker seg ++ cb)
head_join true b v xs ys zs (o, e) (inl (z, q, e₂)) h = (zs, h, rw (e, z, e₂))
head_join true b v xs ys zs (o, e) (inr (z, q, e₂)) h = absurd (cc)
head_join false b v xs ys zs (o, e) (inl (z, q, e₂)) h = absurd (cc)
head_join false b v xs ys zs (o, e) (inr (z, q, e₂)) h =
    (xs ++ zs, (b, xs, zs, (o, e), h, refl), rw e₂)

VarTail-zero : (b v : ℕ) (bs : List ℕ) → VarTail b v bs → b ≡ 0 → v ≡ 0
VarTail-zero b v bs (VarTail.short l e n) z = e ∙ z
VarTail-zero b v bs (VarTail.two e w) z = absurd (omega arith)
VarTail-zero b v bs (VarTail.four e w) z = absurd (omega arith)
VarTail-zero b v bs (VarTail.eight e w) z = absurd (omega arith)

pub head_split :
    (seg : Bool) (v : ℕ) (cb : List ℕ)
    → VarInt v cb
    → v ≢ 0
    → (b : ℕ) × (xs : List ℕ) × (ys : List ℕ) × (zs : List ℕ) × Byte b xs
      × Detected b seg ys
      × Counted seg b v zs
      × (marker seg ++ cb ≡ xs ++ (ys ++ zs))
head_split true v cb h nz =
    (0, 0 ∷ [], 1 ∷ [], cb, (omega arith, refl), inl (refl, refl, refl), h, refl)
head_split false v cb (b, xs, zs, byte, h, e) nz =
    (b, xs, [], zs, byte, inr (λ z. nz (VarTail-zero b v zs h z), refl, refl), h, e)

pub nonzero : (n : ℕ) → (n == 0) ≡ false → n ≢ 0
nonzero n h z = ground arith

pub zero_test : (n : ℕ) → n ≢ 0 → (n == 0) ≡ false
zero_test n h = ground arith

pub regroup :
    (xs ys zs ms cb rest : List ℕ)
    → xs ++ (ys ++ zs) ≡ ms ++ cb
    → xs ++ (ys ++ (zs ++ rest)) ≡ ms ++ (cb ++ rest)
regroup xs ys zs ms cb rest e =
    rw (← append_assoc ys zs rest, ← append_assoc xs (ys ++ zs) rest, e) (append_assoc ms cb rest)
