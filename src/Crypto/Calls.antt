-- ===== src/Crypto/Calls.antt =====
-- crypto.go: one `Read` of the encrypter or the decrypter.
use telang.Common.{ℕ, ◌+◌, ◌≤◌, ◌<◌, ◌≡◌, ◌≢◌, refl, ◌∙◌, Str, ◌∷◌, Bool, [], length, take, drop}
use telang.Crypto.Stream.{
  NextFrame, Reader, ReadError, eof, stalled, no_error, read_failed, end_of_stream, fill,
}
use telang.Crypto.Reads.{left_bytes, left_end, fill-Delivered, final}

-- The error that comes with the last bytes `w` of a stream that ends with an error.
abbrev pub reported : Str → ReadError → ReadError
reported [] eof = eof
reported (b ∷ bs) eof = no_error
reported w e = e

final_lem : (w : Str) (e : ReadError) → final w e ≡ reported w e
unfolding end_of_stream
final_lem [] eof = refl
final_lem (b ∷ bs) eof = refl
final_lem [] no_error = refl
final_lem (b ∷ bs) no_error = refl
final_lem [] stalled = refl
final_lem (b ∷ bs) stalled = refl
final_lem [] (read_failed x) = refl
final_lem (b ∷ bs) (read_failed x) = refl

module _ {C : Type 0} (ended : C → Bool) (next_frame : C → NextFrame C) where
  -- A Read into a buffer that is no longer than what is left, of a stream that comes to its end
  -- within `k` frames, fills the buffer with the next bytes and reports no error, given fuel for
  -- `k` frames and every byte of the buffer; then the bytes behind them are left, with the same
  -- end.
  pub fill_enough :
      (fuel k room : ℕ) (r : Reader C)
      → k + room < fuel
      → left_end ended next_frame k r ≢ stalled
      → room ≤ length (left_bytes ended next_frame k r)
      → ((fill ended next_frame fuel r room []).bytes ≡ take room (left_bytes ended next_frame k r))
        × ((fill ended next_frame fuel r room []).error ≡ no_error)
        × ((j : ℕ) × (left_bytes ended next_frame j (fill ended next_frame fuel r room []).reader
              ≡ drop room (left_bytes ended next_frame k r))
            × (left_end ended next_frame j (fill ended next_frame fuel r room []).reader
                ≡ left_end ended next_frame k r))
  fill_enough fuel k room r f s le =
      let d = fill-Delivered ended next_frame fuel k r room [] f s in
      (d.bytes, d.no_error_yet le, d.still_left le)

  -- A Read into a buffer that is longer than what is left, of a stream that comes to its end
  -- within `k` frames, given fuel for `k` frames and every byte of the buffer, delivers all that
  -- is left, with the error that the stream ends with: its own, or at a plain end io.EOF if no
  -- byte was written and none if there was one.
  pub fill_last :
      (fuel k room : ℕ) (r : Reader C)
      → k + room < fuel
      → left_end ended next_frame k r ≢ stalled
      → length (left_bytes ended next_frame k r) < room
      → ((fill ended next_frame fuel r room []).bytes ≡ take room (left_bytes ended next_frame k r))
        × ((fill ended next_frame fuel r room []).error
            ≡ reported (left_bytes ended next_frame k r) (left_end ended next_frame k r))
  fill_last fuel k room r f s lt =
      let d = fill-Delivered ended next_frame fuel k r room [] f s in
      (d.bytes, d.at_the_end lt ∙ final_lem _ _)
