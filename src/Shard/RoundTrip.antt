-- ===== src/Shard/RoundTrip.antt =====
-- Each fixed-width record of a shard is read back as it was written, and has its stated size.
use xet_server.Prelude.{refl, replicate}
use xet_server.Hash.Laws.{Reads-hash}
use xet_server.Reader.Reads.{Reads, Reads-bind, Reads-pure, Reads-exact_of, Reads-u32, Reads-u64}
use xet_server.Shard.Header
use xet_server.Shard.Header.{MdbShardFileHeader, IsHeader}
use xet_server.Shard.Footer
use xet_server.Shard.Footer.{MdbShardFileFooter, IsFooter}
use xet_server.Shard.FileSequence
use xet_server.Shard.FileSequence.{
  FileDataSequenceHeader, IsFileHeader, FileDataSequenceEntry, IsFileEntry,
}
use xet_server.Shard.XorbSequence
use xet_server.Shard.XorbSequence.{
  XorbChunkSequenceHeader, IsXorbHeader, XorbChunkSequenceEntry, IsXorbEntry,
}
use xet_server.Shard.ChunkLookup
use xet_server.Shard.ChunkLookup.{ChunkLookupEntry, IsChunkLookup}

-- A shard header of 64-bit numbers and a tag of 32 bytes is read back from its bytes, whatever follows
-- them, and the reader stands behind them.
pub Reads-header :
    (h : MdbShardFileHeader) → IsHeader h → Reads Header.deserialize (Header.serialize h) h
unfolding Header.deserialize Header.serialize
Reads-header h v = Reads-bind _ (Reads-exact_of h.tag v.tag_length) (
    Reads-bind _ (Reads-u64 v.version_fits)
      (Reads-bind _ (Reads-u64 v.footer_size_fits) (Reads-pure _)))

-- A footer of 64-bit numbers and a key of 32 bytes is read back from its bytes, whatever follows
-- them, and the reader stands behind them.
pub Reads-footer :
    (f : MdbShardFileFooter) → IsFooter f → Reads Footer.deserialize (Footer.serialize f) f
unfolding Footer.deserialize Footer.serialize
Reads-footer f v = Reads-bind _ (Reads-u64 v.version_fits) (
    Reads-bind _ (Reads-u64 v.file_info_fits) (
      Reads-bind _ (Reads-u64 v.xorb_info_fits) (
        Reads-bind _ (Reads-u64 v.file_lookup_fits) (
          Reads-bind _ (Reads-u64 v.file_count_fits) (
            Reads-bind _ (Reads-u64 v.xorb_lookup_fits) (
              Reads-bind _ (Reads-u64 v.xorb_count_fits) (
                Reads-bind _ (Reads-u64 v.chunk_lookup_fits) (
                  Reads-bind _ (Reads-u64 v.chunk_count_fits) (
                    Reads-bind _ (Reads-exact_of f.chunk_hash_hmac_key v.key_length) (
                      Reads-bind _ (Reads-u64 v.creation_fits) (
                        Reads-bind _ (Reads-u64 v.expiry_fits) (
                          Reads-bind _ (Reads-exact_of (replicate 56 0) refl) (
                            Reads-bind _ (Reads-u64 v.on_disk_fits) (
                              Reads-bind _ (Reads-u64 v.materialized_fits) (
                                Reads-bind _ (Reads-u64 v.stored_fits) (
                                  Reads-bind _ (Reads-u64 v.footer_fits)
                                    (Reads-pure _)))))))))))))))))

-- A file sequence header whose values fit their types is read back from its bytes, whatever follows
-- them, and the reader stands behind them.
pub Reads-file_header :
    (h : FileDataSequenceHeader)
    → IsFileHeader h
    → Reads FileSequence.deserialize_header (FileSequence.serialize_header h) h
unfolding FileSequence.deserialize_header FileSequence.serialize_header
Reads-file_header h v = Reads-bind _ (Reads-hash v.hash_fits) (
    Reads-bind _ (Reads-u32 v.flags_fits) (
      Reads-bind _ (Reads-u32 v.num_entries_fits)
        (Reads-bind _ (Reads-exact_of (replicate 8 0) refl) (Reads-pure _))))

-- A file sequence entry whose values fit their types is read back from its bytes, whatever follows
-- them, and the reader stands behind them.
pub Reads-file_entry :
    (e : FileDataSequenceEntry)
    → IsFileEntry e
    → Reads FileSequence.deserialize_entry (FileSequence.serialize_entry e) e
unfolding FileSequence.deserialize_entry FileSequence.serialize_entry
Reads-file_entry e v = Reads-bind _ (Reads-hash v.hash_fits) (
    Reads-bind _ (Reads-u32 v.flags_fits) (
      Reads-bind _ (Reads-u32 v.bytes_fits) (
        Reads-bind _ (Reads-u32 v.start_fits)
          (Reads-bind _ (Reads-u32 v.end_fits) (Reads-pure _)))))

-- A xorb sequence header whose values fit their types is read back from its bytes, whatever follows
-- them, and the reader stands behind them.
pub Reads-xorb_header :
    (h : XorbChunkSequenceHeader)
    → IsXorbHeader h
    → Reads XorbSequence.deserialize_header (XorbSequence.serialize_header h) h
unfolding XorbSequence.deserialize_header XorbSequence.serialize_header
Reads-xorb_header h v = Reads-bind _ (Reads-hash v.hash_fits) (
    Reads-bind _ (Reads-u32 v.flags_fits) (
      Reads-bind _ (Reads-u32 v.num_entries_fits) (
        Reads-bind _ (Reads-u32 v.in_xorb_fits)
          (Reads-bind _ (Reads-u32 v.on_disk_fits) (Reads-pure _)))))

-- A xorb sequence entry whose values fit their types is read back from its bytes, whatever follows
-- them, and the reader stands behind them.
pub Reads-xorb_entry :
    (e : XorbChunkSequenceEntry)
    → IsXorbEntry e
    → Reads XorbSequence.deserialize_entry (XorbSequence.serialize_entry e) e
unfolding XorbSequence.deserialize_entry XorbSequence.serialize_entry
Reads-xorb_entry e v = Reads-bind _ (Reads-hash v.hash_fits) (
    Reads-bind _ (Reads-u32 v.start_fits) (
      Reads-bind _ (Reads-u32 v.bytes_fits) (
        Reads-bind _ (Reads-u32 v.flags_fits)
          (Reads-bind _ (Reads-exact_of (replicate 4 0) refl) (Reads-pure _)))))

-- A chunk lookup entry whose values fit their types is read back from its bytes, whatever follows
-- them, and the reader stands behind them.
pub Reads-chunk_lookup :
    (e : ChunkLookupEntry)
    → IsChunkLookup e
    → Reads ChunkLookup.deserialize (ChunkLookup.serialize e) e
unfolding ChunkLookup.deserialize ChunkLookup.serialize
Reads-chunk_lookup e v =
    Reads-bind _ (Reads-hash v.chunk_fits)
      (Reads-bind _ (Reads-hash v.xorb_fits) (Reads-bind _ (Reads-u32 v.index_fits) (Reads-pure _)))
