-- ===== src/Block/Fields.antt =====
-- The fields of a block header in its 80 bytes.
use blockchain_zc_parser.Base.{ℕ, ◌≡◌, refl, List, ◌++◌, length, All}
use blockchain_zc_parser.Target.{Target}
use blockchain_zc_parser.Bytes.{IsByte, from_le_bytes, signed}
use blockchain_zc_parser.Cursor.Format.{Format, Decodes}
use blockchain_zc_parser.Cursor.Rules.{bind-Decodes}
use blockchain_zc_parser.Cursor.Checks.{change-Decodes}
use blockchain_zc_parser.Cursor.Reads.{read_array-Decodes, read_u32_le-Decodes, read_i32_le-Decodes}
use blockchain_zc_parser.Cursor.Words.{Word}
use blockchain_zc_parser.Transaction.Wire.{build-Decodes}
use blockchain_zc_parser.Block.{BlockHeader, header_fields}

-- The six fields of a header, in 80 bytes.
pub record Fields (h : BlockHeader) (bs : List ℕ) : Type 0 where
  pub version_bytes : List ℕ
  pub time_bytes : List ℕ
  pub bits_bytes : List ℕ
  pub nonce_bytes : List ℕ
  pub version : Word 4 (λ ws. signed 32 (from_le_bytes ws)) h.version version_bytes
  pub prev_block : (length h.prev_block.array ≡ 32) × All IsByte h.prev_block.array
  pub merkle_root : (length h.merkle_root.array ≡ 32) × All IsByte h.merkle_root.array
  pub timestamp : Word 4 from_le_bytes h.timestamp time_bytes
  pub bits : Word 4 from_le_bytes h.bits bits_bytes
  pub nonce : Word 4 from_le_bytes h.nonce nonce_bytes
  pub whole :
      bs
      ≡ version_bytes
        ++ (h.prev_block.array
            ++ (h.merkle_root.array ++ (time_bytes ++ (bits_bytes ++ nonce_bytes))))

-- A header keeps its own bytes.
abbrev pub HeaderFormat : Format BlockHeader
HeaderFormat h bs = Fields h bs × (h.raw ≡ bs)

-- The fields of the cursor over `raw`.
abbrev pub FieldsOf : List ℕ → Format BlockHeader
FieldsOf raw h bs = Fields h bs × (h.raw ≡ raw)

pub fields-Decodes : (t : Target) (raw : List ℕ) → Decodes t (header_fields t raw) (FieldsOf raw)
unfolding header_fields
fields-Decodes t raw =
    change-Decodes t
      (bind-Decodes t (read_i32_le-Decodes t) λ version _ _.
        bind-Decodes t (read_array-Decodes t 32) λ prev _ _.
          bind-Decodes t (read_array-Decodes t 32) λ merkle _ _.
            bind-Decodes t (read_u32_le-Decodes t) λ time _ _.
              bind-Decodes t (read_u32_le-Decodes t) λ bits _ _.
                build-Decodes t
                  (λ nonce. record {
                    version = version;
                    prev_block = record { array = prev };
                    merkle_root = record { array = merkle };
                    timestamp = time;
                    bits = bits;
                    nonce = nonce;
                    raw = raw;
                  })
                  (read_u32_le-Decodes t))
      (λ h bs
          (
            v,
            vb,
            r₁,
            hv,
            (
              p,
              pb,
              r₂,
              (ep, lp, op),
              (
                m,
                mb,
                r₃,
                (em, lm, om),
                (time, tb, r₄, ht, (bits, bb, nb, hb, (n, e, hn), g₅), g₄),
                g₃,
              ),
              g₂,
            ),
            g₁,
          ).
        rw e (
          record {
            version_bytes = vb;
            time_bytes = tb;
            bits_bytes = bb;
            nonce_bytes = nb;
            version = hv;
            prev_block = (rw ep lp, rw ep op);
            merkle_root = (rw em lm, rw em om);
            timestamp = ht;
            bits = hb;
            nonce = hn;
            whole = rw (g₁, g₂, g₃, g₄, g₅, ep, em);
          },
          refl,
        ))
      (λ h bs (f, e). (
        h.version,
        f.version_bytes,
        _,
        f.version,
        (
          h.prev_block.array,
          h.prev_block.array,
          _,
          (refl, f.prev_block.0, f.prev_block.1),
          (
            h.merkle_root.array,
            h.merkle_root.array,
            _,
            (refl, f.merkle_root.0, f.merkle_root.1),
            (
              h.timestamp,
              f.time_bytes,
              _,
              f.timestamp,
              (h.bits, f.bits_bytes, f.nonce_bytes, f.bits, (h.nonce, rw (← e), f.nonce), refl),
              refl,
            ),
            refl,
          ),
          refl,
        ),
        f.whole,
      ))
