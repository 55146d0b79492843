-- ===== src/Cursor/VarInt.antt =====
-- The variable-length integers and what they prefix: `read_varint`, `read_var_bytes`.
use blockchain_zc_parser.Base.{
  ℕ, ◌≤◌, ◌<◌, ◌≡◌, ◌≢◌, refl, subst, List, [], true, false, arith, leb, ltb, leb→le, le→leb, ◌==◌,
  ==_iff, if◌then◌else◌, ltb→le, le→ltb,
}
use blockchain_zc_parser.Error.{ok, fault, oversized_data}
use blockchain_zc_parser.Action.{Action, pure, lift, ◌>>=◌, ◌>>◌, refuse_if}
use blockchain_zc_parser.Target.{Target, usize_max, to_usize}
use blockchain_zc_parser.Bytes.{from_le_bytes}
use blockchain_zc_parser.Cursor.{
  Cursor, read_u16_le, read_u32_le, read_u64_le, read_varint, read_var_bytes, read_bytes,
}
use blockchain_zc_parser.Cursor.Format.{Format, Decodes}
use blockchain_zc_parser.Cursor.Rules.{Then, Nothing, bind-Decodes}
use blockchain_zc_parser.Cursor.Checks.{
  lift-Decodes, pure-Decodes, change-Decodes, if-Decodes, refuse_if-Decodes,
}
use blockchain_zc_parser.Cursor.Reads.{
  Byte, read_u8-Decodes, read_u16_le-Decodes, read_u32_le-Decodes, read_u64_le-Decodes,
}
use blockchain_zc_parser.Cursor.Words.{Raw, Word, read_bytes-Decodes}

-- What follows the first byte `b` of an encoding of `v`.
pub data VarTail (b : ℕ) (v : ℕ) (bs : List ℕ) : Type 0 where
  short : b ≤ 0xfc → v ≡ b → bs ≡ [] → VarTail b v bs
  two : b ≡ 0xfd → Word 2 from_le_bytes v bs → VarTail b v bs
  four : b ≡ 0xfe → Word 4 from_le_bytes v bs → VarTail b v bs
  -- A byte above 0xfe is 0xff.
  eight : 0xfe < b → Word 8 from_le_bytes v bs → VarTail b v bs

-- The encodings of `v` in 1, 3, 5 and 9 bytes. A value may have several: the longer forms are not
-- kept to the values that need them.
abbrev pub VarInt : Format ℕ
VarInt = Then Byte VarTail

-- The match on the first byte.
abbrev pub var_tail : Target → ℕ → Action Cursor ℕ
var_tail t v =
    if leb v 0xfc
    then pure v
    else if v == 0xfd
    then read_u16_le t
    else if v == 0xfe
    then read_u32_le t
    else read_u64_le t

pub var_tail-Decodes : (t : Target) (b : ℕ) → Decodes t (var_tail t b) (VarTail b)
var_tail-Decodes t b =
    if-Decodes t (leb b 0xfc)
      (λ h.
        change-Decodes t (pure-Decodes t b) (λ v bs (e, n). short (leb→le b 0xfc h) e n)
          (only_short h))
      (λ h.
        if-Decodes t (b == 0xfd)
          (λ h₂.
            change-Decodes t (read_u16_le-Decodes t) (λ v bs w. two ((==_iff b 0xfd).0 h₂) w)
              (only_two h₂))
          (λ h₂.
            if-Decodes t (b == 0xfe)
              (λ h₃.
                change-Decodes t (read_u32_le-Decodes t) (λ v bs w. four ((==_iff b 0xfe).0 h₃) w)
                  (only_four h₃))
              (λ h₃.
                change-Decodes t (read_u64_le-Decodes t) (λ v bs w. eight (ground arith) w)
                  (only_eight h h₂ h₃))))
  where
    only_short :
        leb b 0xfc ≡ true → (v : ℕ) (bs : List ℕ) → VarTail b v bs → Nothing (λ w. w ≡ b) v bs
    only_short h v bs (short _ e n) = (e, n)
    only_short h v bs (two e w) = absurd (ground arith)
    only_short h v bs (four e w) = absurd (ground arith)
    only_short h v bs (eight e w) = absurd (ground arith)

    only_two :
        (b == 0xfd) ≡ true → (v : ℕ) (bs : List ℕ) → VarTail b v bs → Word 2 from_le_bytes v bs
    only_two h v bs (short l e n) = absurd (ground arith)
    only_two h v bs (two e w) = w
    only_two h v bs (four e w) = absurd (ground arith)
    only_two h v bs (eight e w) = absurd (ground arith)

    only_four :
        (b == 0xfe) ≡ true → (v : ℕ) (bs : List ℕ) → VarTail b v bs → Word 4 from_le_bytes v bs
    only_four h v bs (short l e n) = absurd (ground arith)
    only_four h v bs (two e w) = absurd (ground arith)
    only_four h v bs (four e w) = w
    only_four h v bs (eight e w) = absurd (ground arith)

    only_eight :
        leb b 0xfc ≡ false
        → (b == 0xfd) ≡ false
        → (b == 0xfe) ≡ false
        → (v : ℕ) (bs : List ℕ) → VarTail b v bs
        → Word 8 from_le_bytes v bs
    only_eight h h₂ h₃ v bs (short l e n) = absurd (ground arith)
    only_eight h h₂ h₃ v bs (two e w) = absurd (ground arith)
    only_eight h h₂ h₃ v bs (four e w) = absurd (ground arith)
    only_eight h h₂ h₃ v bs (eight e w) = w

pub read_varint-Decodes : (t : Target) → Decodes t (read_varint t) VarInt
unfolding read_varint
read_varint-Decodes t = bind-Decodes t (read_u8-Decodes t) (λ b bs h. var_tail-Decodes t b)

pub to_usize-ne-fault : (t : Target) (v : ℕ) → to_usize t v ≢ fault
to_usize-ne-fault t v e = ground arith

pub to_usize-ok : (t : Target) (v : ℕ) → v ≤ usize_max t → to_usize t v ≡ ok v
to_usize-ok t v h = rw (le→leb v (usize_max t) h)

pub to_usize-inv : (t : Target) (v n : ℕ) → to_usize t v ≡ ok n → v ≡ n
to_usize-inv t v n h = ground arith

-- A count or a length of at most `max`.
abbrev pub UpTo : ℕ → Format ℕ
UpTo max n bs = VarInt n bs × (n ≤ max)

-- `let n: usize = c.read_varint()?.try_into()…?; if n > max { return Err(…) }`, and then `k n`.
abbrev pub counted : Target → ℕ → {A : Type 0} → (ℕ → Action Cursor A) → Action Cursor A
counted t max k = do
  v ← read_varint t
  n ← lift (to_usize t v)
  refuse_if (ltb max n) (oversized_data n max)
  k n

abbrev Steps : Target → ℕ → {A : Type 0} → (ℕ → Format A) → Format A
Steps t max G = Then VarInt λ v.
    Then (Nothing (λ n. to_usize t v ≡ ok n))
      λ n. Then {A = Unit {0}} (Nothing (λ _. ltb max n ≡ false)) λ _. G n

module _ (t : Target) (max : ℕ) (fits : max ≤ usize_max t) {A : Type 0} (k : ℕ → Action Cursor A)
    (G : ℕ → Format A) where
  Steps→ : (a : A) (bs : List ℕ) → Steps t max G a bs → Then (UpTo max) G a bs
  Steps→ a bs (v, xs, ys, hv, (n, ns, zs, (q, e), (_, ms, ws, (h, e₂), hg, s₃), s₂), s) = (
    n,
    xs,
    ws,
    (subst (λ m. VarInt m xs) (to_usize-inv t v n q) hv, ltb→le max n h),
    hg,
    rw (s, s₂, e, s₃, e₂),
  )

  Steps← : (a : A) (bs : List ℕ) → Then (UpTo max) G a bs → Steps t max G a bs
  Steps← a bs (n, xs, ys, (hv, l), hg, s) = (
    n,
    xs,
    ys,
    hv,
    (
      n,
      [],
      ys,
      (to_usize-ok t n (omega arith), refl),
      (tt, [], ys, (le→ltb max n l, refl), hg, refl),
      refl,
    ),
    s,
  )

  pub counted-Decodes :
      ((n : ℕ) → n ≤ max → Decodes t (k n) (G n)) → Decodes t (counted t max k) (Then (UpTo max) G)
  counted-Decodes d =
      change-Decodes t
        (bind-Decodes t (read_varint-Decodes t) λ v bs hv.
          bind-Decodes t (lift-Decodes t (to_usize t v) (to_usize-ne-fault t v)) λ n bs₂ hn.
            bind-Decodes t (refuse_if-Decodes t (ltb max n) (oversized_data n max))
              λ u bs₃ (h, e). d n (ltb→le max n h))
        Steps→ Steps←

-- A length of at most `max`, and as many bytes.
abbrev pub VarBytes : ℕ → Format (List ℕ)
VarBytes max = Then (UpTo max) Raw

pub read_var_bytes-Decodes :
    (t : Target) (max : ℕ) → max ≤ usize_max t → Decodes t (read_var_bytes t max) (VarBytes max)
unfolding read_var_bytes
read_var_bytes-Decodes t max fits =
    counted-Decodes t max fits (read_bytes t) Raw (λ n l. read_bytes-Decodes t n)
