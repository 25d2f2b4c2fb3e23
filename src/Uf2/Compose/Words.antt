-- ===== src/Uf2/Compose/Words.antt =====
-- The words of a renumbered block and of a fresh block.
use firmingo.Common.{ℕ, ◌+◌, ◌^◌, ◌≤◌, ◌<◌, ◌≡◌, refl, sym, ap, ◌∙◌, ◌++◌, length, replicate, arith}
use firmingo.Common.Bytes.{
  Bytes, slice, splice, unpack_le, pack_le, HasLength, unpack_le-pack_le, slice-splice_before,
  slice-splice_after, slice-splice, slice-slice, length-splice,
}
use firmingo.Uf2.{magic_end, word, address_of, payload_of}
use firmingo.Uf2.Resident.{IsBlock}
use firmingo.Uf2.Compose.{block_head, slot_block}

module _ (o : ℕ) (ys xs : Bytes) where
  word-splice_before : (p : ℕ) → p + 4 ≤ o → word p (splice o ys xs) ≡ word p xs
  unfolding word
  word-splice_before p h = ap unpack_le (slice-splice_before p 4 o ys xs h)

  word-splice_after : (p : ℕ) → o + length ys ≤ p → word p (splice o ys xs) ≡ word p xs
  unfolding word
  word-splice_after p h = ap unpack_le (slice-splice_after p 4 o ys xs h)

  word-splice :
      (p q : ℕ)
      → o + p ≡ q
      → p + 4 ≤ length ys
      → o + length ys ≤ length xs
      → word q (splice o ys xs) ≡ word p ys
  unfolding word
  word-splice p q e h k =
      ap (λ t. unpack_le (slice t 4 (splice o ys xs))) (sym e)
      ∙ ap unpack_le (sym (slice-slice p 4 o (length ys) (splice o ys xs) h))
      ∙ ap (λ t. unpack_le (slice p 4 t)) (slice-splice o ys xs k)

pub word-pack_le : (v : ℕ) (rest : Bytes) → v < 2 ^ 32 → word 0 (pack_le 4 v ++ rest) ≡ v
unfolding word
word-pack_le v rest h = unpack_le-pack_le 4 v (omega arith)

abbrev numbers : ℕ → ℕ → Bytes
numbers index total = pack_le 4 index ++ pack_le 4 total

-- The renumbered block has its new number and count, and all else as before.
pub renumbered :
    (total' index' total index : ℕ) (block : Bytes)
    → HasLength 512 block
    → index < 2 ^ 32
    → total < 2 ^ 32
    → IsBlock total' index' block
    → IsBlock total index (splice 20 (numbers index total) block)
unfolding word
renumbered total' index' total index block full fits fits_total b =
    let ys = numbers index total in
    record {
      start0 = word-splice_before 20 ys block 0 (omega arith) ∙ b.start0;
      start1 = word-splice_before 20 ys block 4 (omega arith) ∙ b.start1;
      flags = word-splice_before 20 ys block 8 (omega arith) ∙ b.flags;
      size = word-splice_before 20 ys block 16 (omega arith) ∙ b.size;
      number =
          word-splice 20 ys block 0 20 refl (omega arith) (omega arith)
          ∙ unpack_le-pack_le 4 index (omega arith);
      count =
          word-splice 20 ys block 4 24 refl (omega arith) (omega arith)
          ∙ unpack_le-pack_le 4 total (omega arith);
      family_id = word-splice_after 20 ys block 28 (omega arith) ∙ b.family_id;
      end = word-splice_after 20 ys block 508 (omega arith) ∙ b.end;
    }

pub renumbered_place :
    (total index : ℕ) (block : Bytes)
    → (address_of (splice 20 (numbers index total) block) ≡ address_of block)
      × (payload_of (splice 20 (numbers index total) block) ≡ payload_of block)
renumbered_place total index block = (
  word-splice_before 20 (numbers index total) block 12 (omega arith),
  slice-splice_after 32 256 20 (numbers index total) block (omega arith),
)

-- A buffer into which a header, a payload and a closing word are written.
module _ (head payload tail buffer : Bytes) where
  abbrev written : Bytes
  written = splice 508 tail (splice 32 payload (splice 0 head buffer))

  length-written : length written ≡ length buffer
  length-written =
      length-splice 508 tail (splice 32 payload (splice 0 head buffer))
      ∙ length-splice 32 payload (splice 0 head buffer)
      ∙ length-splice 0 head buffer

  module _ (head_full : length head ≡ 32) (payload_full : length payload ≡ 256) where
    module _ (tail_full : length tail ≡ 4) (buffer_full : length buffer ≡ 512) where
      written_head : (p : ℕ) → p + 4 ≤ 32 → word p written ≡ word p head
      written_head p h =
          word-splice_before 508 tail (splice 32 payload (splice 0 head buffer)) p (omega arith)
          ∙ word-splice_before 32 payload (splice 0 head buffer) p h
          ∙ word-splice 0 head buffer p p (omega arith) (omega arith) (omega arith)

      written_payload : payload_of written ≡ payload
      written_payload =
          slice-splice_before 32 256 508 tail (splice 32 payload (splice 0 head buffer))
            (omega arith)
          ∙ ap (λ n. slice 32 n (splice 32 payload (splice 0 head buffer))) (sym payload_full)
          ∙ slice-splice 32 payload (splice 0 head buffer)
              (omega (arith, length-splice 0 head buffer))

      written_end : word 508 written ≡ word 0 tail
      written_end =
          word-splice 508 tail (splice 32 payload (splice 0 head buffer)) 0 508 refl (omega arith) (
            omega
              (arith, length-splice 32 payload (splice 0 head buffer), length-splice 0 head buffer))

module _ (address index total : ℕ) (payload : Bytes) (full : HasLength 256 payload) where
  head_word :
      (p : ℕ)
      → p + 4 ≤ 32
      → word p (slot_block address index total payload) ≡ word p (block_head address index total)
  unfolding slot_block
  head_word =
      written_head (block_head address index total) payload (pack_le 4 magic_end) (replicate 512 0)
        refl full refl refl

  -- A fresh block has the frame, its number and its address.
  pub slot_block-IsBlock :
      address < 2 ^ 32
      → index < 2 ^ 32
      → total < 2 ^ 32
      → IsBlock total index (slot_block address index total payload)
        × (address_of (slot_block address index total payload) ≡ address)
  unfolding word block_head
  slot_block-IsBlock fits_a fits_i fits_t = (
    record {
      start0 = head_word 0 (omega arith);
      start1 = head_word 4 (omega arith);
      flags = head_word 8 (omega arith);
      size = head_word 16 (omega arith);
      number = head_word 20 (omega arith) ∙ unpack_le-pack_le 4 index (omega arith);
      count = head_word 24 (omega arith) ∙ unpack_le-pack_le 4 total (omega arith);
      family_id = head_word 28 (omega arith);
      end = slot_end_word;
    },
    head_word 12 (omega arith) ∙ unpack_le-pack_le 4 address (omega arith),
  )
    where
      slot_end_word : word 508 (slot_block address index total payload) ≡ magic_end
      slot_end_word =
          unfold slot_block in
          written_end (block_head address index total) payload (pack_le 4 magic_end)
            (replicate 512 0) refl full refl refl

  pub length-slot_block : HasLength 512 (slot_block address index total payload)
  unfolding slot_block
  length-slot_block =
      length-written (block_head address index total) payload (pack_le 4 magic_end)
        (replicate 512 0)

  pub payload-slot_block : payload_of (slot_block address index total payload) ≡ payload
  unfolding slot_block
  payload-slot_block =
      written_payload (block_head address index total) payload (pack_le 4 magic_end)
        (replicate 512 0) refl full refl refl
