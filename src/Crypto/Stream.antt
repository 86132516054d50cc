-- ===== src/Crypto/Stream.antt =====
-- crypto.go: the loop that `encrypter.Read` and `decrypter.Read` share, written once over the two
-- `nextFrame` methods, and what a reader has still to deliver.
use telang.Common.{
  ℕ, zero, suc, ◌+◌, ◌-◌, ◌≡◌, true, false, arith, Bool, [], ◌∷◌, ◌++◌, Str, length, take, drop,
  ltb, ◌==◌, if◌then◌else◌,
}
use telang.Crypto.Layout.{CryptoError}

-- What one call of `nextFrame` does: a frame for `buf`, `io.EOF`, or another error.
pub data NextFrame (C : Type 0) : Type 0 where
  frame : C → Str → NextFrame C
  at_eof : C → NextFrame C
  failed : CryptoError → C → NextFrame C

-- The error that a `Read` returns beside its bytes. `stalled` is no error of Go's: the model's
-- fuel ran out.
pub data ReadError : Type 0 where
  no_error eof stalled : ReadError
  read_failed : CryptoError → ReadError

-- `encrypter` and `decrypter`: `buf` is the pending frame and `out` the bytes drained from it.
pub record Reader (C : Type 0) : Type 0 where
  pub core : C
  pub buf : Str
  pub out : ℕ

pub record ReadResult (C : Type 0) : Type 0 where
  pub bytes : Str
  pub error : ReadError
  pub reader : Reader C

abbrev pub rest : {C : Type 0} → Reader C → Str
rest r = drop r.out r.buf

-- `if written == 0 { return 0, io.EOF }; return written, nil`
unfoldable pub end_of_stream : Str → ReadError
end_of_stream [] = eof
end_of_stream (b ∷ bs) = no_error

module _ {C : Type 0} (ended : C → Bool) (next_frame : C → NextFrame C) where
  -- `for len(p) > 0 { … }` with `room` for `len(p)` and `written` for the bytes that are in the
  -- caller's buffer.
  unfoldable pub fill : ℕ → Reader C → ℕ → Str → ReadResult C
  unfolding end_of_stream
  fill zero r room written = record { bytes = written; error = stalled; reader = r }
  fill (suc fuel) r room written =
      let pending = rest r in
      let n = if ltb room (length pending) then room else length pending in
      let copied =
        fill fuel (record r { out = r.out + n }) (room - n) (written ++ take n pending) in
      let next : ReadResult C = elim (next_frame r.core) [
        | frame c b ↦ fill fuel (record { core = c; buf = b; out = 0 }) room written
        | at_eof c ↦ record {
          bytes = written;
          error = end_of_stream written;
          reader = record r { core = c };
        }
        | failed e c ↦ record {
          bytes = written;
          error = read_failed e;
          reader = record r { core = c };
        }
      ] in
      if room == 0
      then record { bytes = written; error = no_error; reader = r }
      else if ltb 0 (length pending)
      then copied
      else if ended r.core
      then record { bytes = written; error = end_of_stream written; reader = r }
      else next

  -- All that the core still delivers, frame by frame, and how it ends.
  unfoldable pub drain : ℕ → C → Str × ReadError
  drain zero c = ([], stalled)
  drain (suc fuel) c =
      let next : Str × ReadError = elim (next_frame c) [
        | frame c' b ↦ (b ++ (drain fuel c').0, (drain fuel c').1)
        | at_eof c' ↦ ([], eof)
        | failed e c' ↦ ([], read_failed e)
      ] in
      if ended c then ([], eof) else next

  pub drain_ended : (fuel : ℕ) (c : C) → ended c ≡ true → drain (suc fuel) c ≡ ([], eof)
  unfolding drain
  drain_ended fuel c h = rw h

  pub drain_eof :
      (fuel : ℕ) (c : C) {c' : C} → next_frame c ≡ at_eof c' → drain (suc fuel) c ≡ ([], eof)
  unfolding drain
  drain_eof fuel c h = ground arith

  pub drain_frame :
      (fuel : ℕ) (c : C) {c' : C} {b : Str}
      → ended c ≡ false
      → next_frame c ≡ frame c' b
      → drain (suc fuel) c ≡ (b ++ (drain fuel c').0, (drain fuel c').1)
  unfolding drain
  drain_frame fuel c h e = rw (h, e)
