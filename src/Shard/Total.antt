-- ===== src/Shard/Total.antt =====
-- Reading the records of a shard: it takes their bytes, and ends.
use xet_server.Reader.Total.{Takes, Takes-bind, Takes-pure, Takes-exact, Takes-u32, Takes-u64}
use xet_server.Hash.{read_hash}
use xet_server.Shard.Header
use xet_server.Shard.Footer
use xet_server.Shard.FileSequence
use xet_server.Shard.XorbSequence
use xet_server.Shard.ChunkLookup

pub Takes-hash : Takes 32 read_hash
unfolding read_hash
Takes-hash = Takes-bind _ 32 0 (Takes-exact 32) (λ b. Takes-pure _)

pub Takes-header : Takes 48 Header.deserialize
unfolding Header.deserialize
Takes-header =
    Takes-bind _ 32 16 (Takes-exact 32)
      (λ tag. Takes-bind _ 8 8 Takes-u64 (λ v. Takes-bind _ 8 0 Takes-u64 (λ f. Takes-pure _)))

pub Takes-footer : Takes 208 Footer.deserialize
unfolding Footer.deserialize
Takes-footer = Takes-bind _ 8 200 Takes-u64 (λ _. Takes-bind _ 8 192 Takes-u64 (λ _.
    Takes-bind _ 8 184 Takes-u64 (λ _. Takes-bind _ 8 176 Takes-u64 (λ _.
      Takes-bind _ 8 168 Takes-u64 (λ _. Takes-bind _ 8 160 Takes-u64 (λ _.
        Takes-bind _ 8 152 Takes-u64 (λ _. Takes-bind _ 8 144 Takes-u64 (λ _.
          Takes-bind _ 8 136 Takes-u64 (λ _. Takes-bind _ 32 104 (Takes-exact 32) (λ _.
            Takes-bind _ 8 96 Takes-u64 (λ _. Takes-bind _ 8 88 Takes-u64 (λ _.
              Takes-bind _ 56 32 (Takes-exact 56) (λ _. Takes-bind _ 8 24 Takes-u64 (λ _.
                Takes-bind _ 8 16 Takes-u64 (λ _.
                  Takes-bind _ 8 8 Takes-u64
                    (λ _. Takes-bind _ 8 0 Takes-u64 (λ _. Takes-pure _)))))))))))))))))

pub Takes-file_header : Takes 48 FileSequence.deserialize_header
unfolding FileSequence.deserialize_header
Takes-file_header = Takes-bind _ 32 16 Takes-hash (λ _.
    Takes-bind _ 4 12 Takes-u32
      (λ _. Takes-bind _ 4 8 Takes-u32 (λ _. Takes-bind _ 8 0 (Takes-exact 8) (λ _. Takes-pure _))))

pub Takes-file_entry : Takes 48 FileSequence.deserialize_entry
unfolding FileSequence.deserialize_entry
Takes-file_entry = Takes-bind _ 32 16 Takes-hash (λ _. Takes-bind _ 4 12 Takes-u32 (λ _.
    Takes-bind _ 4 8 Takes-u32
      (λ _. Takes-bind _ 4 4 Takes-u32 (λ _. Takes-bind _ 4 0 Takes-u32 (λ _. Takes-pure _)))))

pub Takes-xorb_header : Takes 48 XorbSequence.deserialize_header
unfolding XorbSequence.deserialize_header
Takes-xorb_header = Takes-bind _ 32 16 Takes-hash (λ _. Takes-bind _ 4 12 Takes-u32 (λ _.
    Takes-bind _ 4 8 Takes-u32
      (λ _. Takes-bind _ 4 4 Takes-u32 (λ _. Takes-bind _ 4 0 Takes-u32 (λ _. Takes-pure _)))))

pub Takes-xorb_entry : Takes 48 XorbSequence.deserialize_entry
unfolding XorbSequence.deserialize_entry
Takes-xorb_entry = Takes-bind _ 32 16 Takes-hash (λ _. Takes-bind _ 4 12 Takes-u32 (λ _.
    Takes-bind _ 4 8 Takes-u32 (λ _.
      Takes-bind _ 4 4 Takes-u32 (λ _. Takes-bind _ 4 0 (Takes-exact 4) (λ _. Takes-pure _)))))

pub Takes-chunk_lookup : Takes 68 ChunkLookup.deserialize
unfolding ChunkLookup.deserialize
Takes-chunk_lookup =
    Takes-bind _ 32 36 Takes-hash
      (λ _. Takes-bind _ 32 4 Takes-hash (λ _. Takes-bind _ 4 0 Takes-u32 (λ _. Takes-pure _)))
