-- ===== src/Service/Blocks/Ids.antt =====
-- The ids that `txid_bytes_to_hex` of src/service.rs reads from the bytes that `record_coinbase` of
-- src/scanner.rs writes.
use forkscanner.Prelude.{
  ℕ, zero, suc, ◌≡◌, refl, ap, sym, ◌∙◌, String, some, List, [], ◌∷◌, ◌++◌, map, length, arith, All,
}
use mathlib.Core.List.{append_assoc, append-nil}
use forkscanner.Scanner.Ancestry.{concat_bytes}
use forkscanner.Service.Blocks.{chunks_from, chunks, txid_bytes_to_hex}

-- The bytes of one id fill the chunk.
fill :
    (room : ℕ) (chunk p rest : List ℕ)
    → length p ≡ room
    → chunks_from room chunk (p ++ rest) ≡ chunks_from 0 (chunk ++ p) rest
unfolding chunks_from
fill zero chunk [] rest e = ap (λ c. chunks_from 0 c rest) (sym (append-nil chunk))
fill zero chunk (b ∷ p) rest e = absurd (ground (arith, e))
fill (suc room) chunk [] rest e = absurd (ground (arith, e))
fill (suc room) chunk (b ∷ p) rest e =
    fill room (chunk ++ b ∷ []) p rest (omega (arith, e))
    ∙ ap (λ c. chunks_from 0 c rest) (append_assoc chunk (b ∷ []) p)

-- A full chunk is the first.
emit : (b : ℕ) (p rest : List ℕ) → chunks_from 0 (b ∷ p) rest ≡ (b ∷ p) ∷ chunks rest
unfolding chunks chunks_from
emit b p [] = refl
emit b p (x ∷ rest) = refl

chunks-append : (p rest : List ℕ) → length p ≡ 32 → chunks (p ++ rest) ≡ p ∷ chunks rest
unfolding chunks
chunks-append [] rest e = absurd (ground (arith, e))
chunks-append (b ∷ p) rest e = fill 32 [] (b ∷ p) rest e ∙ emit b p rest

-- Every id of the list has 32 bytes.
abbrev pub HasIdBytes : (String → List ℕ) → List String → Type 0
HasIdBytes f ids = All (λ id. length (f id) ≡ 32) ids

chunks-concat_bytes :
    (f : String → List ℕ) (ids : List String)
    → HasIdBytes f ids
    → chunks (concat_bytes f ids) ≡ map f ids
unfolding chunks chunks_from
chunks-concat_bytes f [] e = refl
chunks-concat_bytes f (id ∷ ids) e =
    chunks-append (f id) (concat_bytes f ids) e.0
    ∙ ap (λ cs. f id ∷ cs) (chunks-concat_bytes f ids e.1)

-- Where every id has 32 bytes: the ids that a client is shown are those that were stored, in order,
-- each written in the order of its bytes.
pub txid_bytes_to_hex-concat_bytes :
    (encode_hex : List ℕ → String) (txid_bytes : String → List ℕ) (ids : List String)
    → HasIdBytes txid_bytes ids
    → txid_bytes_to_hex encode_hex (some (concat_bytes txid_bytes ids))
      ≡ some (map encode_hex (map txid_bytes ids))
unfolding txid_bytes_to_hex
txid_bytes_to_hex-concat_bytes encode_hex txid_bytes ids len =
    ap (λ cs. some (map encode_hex cs)) (chunks-concat_bytes txid_bytes ids len)
