-- ===== src/Tests/Reading.antt =====
-- Runs of the theorems on what the webdav server reads of a request, and on the sizes of its files.
use vestirust.Prelude.{some, String, List, [], ◌∷◌, ◌≡◌, ◌↔◌, false, ok, arith}
use vestirust.Davs.EncryptedStreamer.Position.{decrypted_size, chunked_position}
use vestirust.Davs.EncryptedStreamer.Sizes.{encrypted_size, sizes_and_positions}
use vestirust.Davs.Headers.{
  infinity, overwrite, decode_depth, encode_depth, decode_overwrite, encode_overwrite,
}
use vestirust.Davs.Headers.Laws.{IsDepthText, decode_headers}
use vestirust.Davs.Webdav.Ranges.{part, answer_range}
use vestirust.Davs.Webdav.Ranges.Laws.{answer_range_total}

abbrev values : List String
values = "infinity" ∷ []

decode_headers_example :
    ((decode_depth values ≡ ok infinity)
      ↔ ((v : String) × (values ≡ v ∷ []) × IsDepthText v infinity))
    × (decode_depth (encode_depth infinity []) ≡ ok infinity)
    × ((decode_overwrite values ≡ ok (overwrite false)) ↔ (values ≡ "F" ∷ []))
    × (decode_overwrite (encode_overwrite (overwrite false) []) ≡ ok (overwrite false))
decode_headers_example = decode_headers values infinity false

-- a file of two full chunks and 7 bytes
sizes_and_positions_example :
    (decrypted_size (encrypted_size 2_000_007) ≡ 2_000_007)
    × ((chunked_position 2_000_007).active_chunk_counter ≡ 2)
    × ((chunked_position 2_000_007).beginning_of_active_chunk ≡ 2_000_051)
    × ((chunked_position 2_000_007).offset_in_active_chunk ≡ 7)
sizes_and_positions_example = sizes_and_positions 2_000_007 (omega arith)

-- a range that starts past the file
answer_range_total_example :
    answer_range (record { start = 200; end = some 300 }) 100 ≡ part 200 99 18446744073709551516
answer_range_total_example =
    answer_range_total 200 100 (some 300) (omega arith) (omega arith) (omega arith)
