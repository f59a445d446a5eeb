-- ===== src/Shard/Sizes.antt =====
-- The sizes of the fixed-width records of a shard, as the constants of src/format/shard.rs state them.
use xet_server.Prelude.{
  ℕ, ◌*◌, ◌≡◌, List, [], ◌∷◌, length, length-append, length-replicate, flat_map, arith,
}
use xet_server.Bytes.RoundTrip.{length-to_le_bytes}
use xet_server.Hash.Laws.{length-as_bytes}
use xet_server.Shard.Header
use xet_server.Shard.Header.{MdbShardFileHeader, IsHeader}
use xet_server.Shard.Footer
use xet_server.Shard.Footer.{MdbShardFileFooter, IsFooter}
use xet_server.Shard.FileSequence
use xet_server.Shard.FileSequence.{FileDataSequenceHeader, FileDataSequenceEntry}
use xet_server.Shard.XorbSequence
use xet_server.Shard.XorbSequence.{XorbChunkSequenceHeader, XorbChunkSequenceEntry}
use xet_server.Shard.ChunkLookup
use xet_server.Shard.ChunkLookup.{ChunkLookupEntry}

ruleset lengths = (length-append, length-to_le_bytes, length-as_bytes, length-replicate)

pub length-header : (h : MdbShardFileHeader) → IsHeader h → length (Header.serialize h) ≡ 48
unfolding Header.serialize
length-header h v = simp (lengths, v.tag_length)

pub length-footer : (f : MdbShardFileFooter) → IsFooter f → length (Footer.serialize f) ≡ 208
unfolding Footer.serialize
length-footer f v = simp (lengths, v.key_length)

pub length-file_header :
    (h : FileDataSequenceHeader) → length (FileSequence.serialize_header h) ≡ 48
unfolding FileSequence.serialize_header
length-file_header h = simp lengths

pub length-file_entry : (e : FileDataSequenceEntry) → length (FileSequence.serialize_entry e) ≡ 48
unfolding FileSequence.serialize_entry
length-file_entry e = simp lengths

pub length-xorb_header :
    (h : XorbChunkSequenceHeader) → length (XorbSequence.serialize_header h) ≡ 48
unfolding XorbSequence.serialize_header
length-xorb_header h = simp lengths

pub length-xorb_entry : (e : XorbChunkSequenceEntry) → length (XorbSequence.serialize_entry e) ≡ 48
unfolding XorbSequence.serialize_entry
length-xorb_entry e = simp lengths

pub length-chunk_lookup : (e : ChunkLookupEntry) → length (ChunkLookup.serialize e) ≡ 68
unfolding ChunkLookup.serialize
length-chunk_lookup e = simp lengths

-- Records of one size, one after the other.
pub length-records {ℓ} :
    {A : Type ℓ} (encode : A → List ℕ) (k : ℕ) (xs : List A)
    → ((x : A) → length (encode x) ≡ k)
    → length (flat_map encode xs) ≡ length xs * k
length-records encode k [] h = omega arith
length-records encode k (x ∷ xs) h =
    omega (arith, length-append (encode x) (flat_map encode xs), h x, length-records encode k xs h)
