-- ===== src/Script/Encoding.antt =====
-- The encodings of a script's instructions, and the parser that reads them from a cursor.
use blockchain_zc_parser.Base.{
  ℕ, ◌≤◌, ◌<◌, ◌≡◌, List, [], true, false, ◌==◌, ==_iff, leb, leb→le, arith,
}
use blockchain_zc_parser.Target.{Target}
use blockchain_zc_parser.Bytes.{from_le_bytes}
use blockchain_zc_parser.Cursor.Format.{Format, Decodes}
use blockchain_zc_parser.Cursor.Rules.{Then, Nothing, bind-Decodes}
use blockchain_zc_parser.Cursor.Checks.{change-Decodes, pure-Decodes, if-Decodes}
use blockchain_zc_parser.Cursor.Reads.{
  Byte, read_u8-Decodes, read_u16_le-Decodes, read_u32_le-Decodes,
}
use blockchain_zc_parser.Cursor.Words.{Raw, Word, read_bytes-Decodes}
use blockchain_zc_parser.Transaction.Wire.{build-Decodes}
use blockchain_zc_parser.Script.Instructions.{Instruction, push_bytes, op}
use blockchain_zc_parser.Script.Reader.{pushed, operand, read_instruction}

-- `n` pushed bytes.
abbrev pub Pushed : ℕ → Format Instruction
Pushed n i bs = (d : List ℕ) × (i ≡ push_bytes d) × Raw n d bs

-- What stands behind the opcode `b`: as many bytes as it says, a length and so many bytes, or nothing.
pub data Operand (b : ℕ) (i : Instruction) (bs : List ℕ) : Type 0 where
  direct : b ≤ 0x4b → Pushed b i bs → Operand b i bs
  pushdata1 : b ≡ 0x4c → Then Byte Pushed i bs → Operand b i bs
  pushdata2 : b ≡ 0x4d → Then (Word 2 from_le_bytes) Pushed i bs → Operand b i bs
  pushdata4 : b ≡ 0x4e → Then (Word 4 from_le_bytes) Pushed i bs → Operand b i bs
  plain : 0x4e < b → i ≡ op b → bs ≡ [] → Operand b i bs

-- An instruction: its opcode and what belongs to it.
abbrev pub InstructionFormat : Format Instruction
InstructionFormat = Then Byte Operand

pushed-Decodes : (t : Target) (n : ℕ) → Decodes t (pushed t n) (Pushed n)
unfolding pushed
pushed-Decodes t n = build-Decodes t push_bytes (read_bytes-Decodes t n)

operand-Decodes : (t : Target) (b : ℕ) → Decodes t (operand t b) (Operand b)
unfolding operand
operand-Decodes t b =
    if-Decodes t (leb b 0x4b)
      (λ h.
        change-Decodes t (pushed-Decodes t b) (λ i bs f. direct (leb→le b 0x4b h) f)
          (only_direct h))
      (λ h.
        if-Decodes t (b == 0x4c)
          (λ h₁.
            change-Decodes t (bind-Decodes t (read_u8-Decodes t) (λ n _ _. pushed-Decodes t n))
              (λ i bs f. pushdata1 ((==_iff b 0x4c).0 h₁) f) (only_1 h₁))
          (λ h₁.
            if-Decodes t (b == 0x4d)
              (λ h₂.
                change-Decodes t
                  (bind-Decodes t (read_u16_le-Decodes t) (λ n _ _. pushed-Decodes t n))
                  (λ i bs f. pushdata2 ((==_iff b 0x4d).0 h₂) f) (only_2 h₂))
              (λ h₂.
                if-Decodes t (b == 0x4e)
                  (λ h₃.
                    change-Decodes t
                      (bind-Decodes t (read_u32_le-Decodes t) (λ n _ _. pushed-Decodes t n))
                      (λ i bs f. pushdata4 ((==_iff b 0x4e).0 h₃) f) (only_4 h₃))
                  (λ h₃.
                    change-Decodes t (pure-Decodes t (op b))
                      (λ i bs (q, e). plain (ground arith) q e) (only_plain h h₁ h₂ h₃)))))
  where
    only_direct :
        leb b 0x4b ≡ true → (i : Instruction) (bs : List ℕ) → Operand b i bs → Pushed b i bs
    only_direct h i bs (direct l f) = f
    only_direct h i bs (pushdata1 e f) = absurd (ground arith)
    only_direct h i bs (pushdata2 e f) = absurd (ground arith)
    only_direct h i bs (pushdata4 e f) = absurd (ground arith)
    only_direct h i bs (plain l q e) = absurd (ground arith)

    only_1 :
        (b == 0x4c) ≡ true
        → (i : Instruction) (bs : List ℕ) → Operand b i bs
        → Then Byte Pushed i bs
    only_1 h i bs (direct l f) = absurd (ground arith)
    only_1 h i bs (pushdata1 e f) = f
    only_1 h i bs (pushdata2 e f) = absurd (ground arith)
    only_1 h i bs (pushdata4 e f) = absurd (ground arith)
    only_1 h i bs (plain l q e) = absurd (ground arith)

    only_2 :
        (b == 0x4d) ≡ true
        → (i : Instruction) (bs : List ℕ) → Operand b i bs
        → Then (Word 2 from_le_bytes) Pushed i bs
    only_2 h i bs (direct l f) = absurd (ground arith)
    only_2 h i bs (pushdata1 e f) = absurd (ground arith)
    only_2 h i bs (pushdata2 e f) = f
    only_2 h i bs (pushdata4 e f) = absurd (ground arith)
    only_2 h i bs (plain l q e) = absurd (ground arith)

    only_4 :
        (b == 0x4e) ≡ true
        → (i : Instruction) (bs : List ℕ) → Operand b i bs
        → Then (Word 4 from_le_bytes) Pushed i bs
    only_4 h i bs (direct l f) = absurd (ground arith)
    only_4 h i bs (pushdata1 e f) = absurd (ground arith)
    only_4 h i bs (pushdata2 e f) = absurd (ground arith)
    only_4 h i bs (pushdata4 e f) = f
    only_4 h i bs (plain l q e) = absurd (ground arith)

    only_plain :
        leb b 0x4b ≡ false
        → (b == 0x4c) ≡ false
        → (b == 0x4d) ≡ false
        → (b == 0x4e) ≡ false
        → (i : Instruction) (bs : List ℕ) → Operand b i bs
        → Nothing (λ a. a ≡ op b) i bs
    only_plain h₀ h₁ h₂ h₃ i bs (direct l f) = absurd (ground arith)
    only_plain h₀ h₁ h₂ h₃ i bs (pushdata1 e f) = absurd (ground arith)
    only_plain h₀ h₁ h₂ h₃ i bs (pushdata2 e f) = absurd (ground arith)
    only_plain h₀ h₁ h₂ h₃ i bs (pushdata4 e f) = absurd (ground arith)
    only_plain h₀ h₁ h₂ h₃ i bs (plain l q e) = (q, e)

pub read_instruction-Decodes : (t : Target) → Decodes t (read_instruction t) InstructionFormat
unfolding read_instruction
read_instruction-Decodes t = bind-Decodes t (read_u8-Decodes t) (λ b _ _. operand-Decodes t b)
