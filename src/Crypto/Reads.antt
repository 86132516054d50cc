-- ===== src/Crypto/Reads.antt =====
-- crypto.go: the loop of `Read` against what the stream has left to deliver.
use telang.Common.{
  ℕ, zero, suc, ◌+◌, ◌-◌, ◌≤◌, ◌<◌, ◌≡◌, ◌≢◌, refl, sym, ◌∙◌, ap, Bool, true, false, ◌++◌, Str,
  length, take, drop, ltb, if◌then◌else◌, [], ◌∷◌, arith, length-append, length-drop, append-nil,
  append_assoc, take-take-append, take-append-drop, take-append_le, drop-append_le, drop-drop, ◌⊎◌,
  List, inl, inr, Bool-cases, ltb→lt, ltb→le,
}
use mathlib.Core.Path.{ap₂}
use telang.Crypto.Layout.{CryptoError}
use telang.Crypto.Stream.{
  NextFrame, frame, at_eof, failed, Reader, ReadResult, ReadError, eof, no_error, stalled,
  read_failed, end_of_stream, rest, fill, drain, drain_frame, drain_ended, drain_eof,
}

-- The error of the `Read` that comes to the end behind `written` bytes.
abbrev pub final : Str → ReadError → ReadError
final w eof = end_of_stream w
final w e = e

NextFrame-cases :
    {C : Type 0} (x : NextFrame C)
    → (record { core : C; bytes : Str; is : x ≡ frame core bytes })
      ⊎ ((record { core : C; is : x ≡ at_eof core })
          ⊎ (record { error : CryptoError; core : C; is : x ≡ failed error core }))
NextFrame-cases (frame c b) = inl (record { core = c; bytes = b; is = refl })
NextFrame-cases (at_eof c) = inr (inl (record { core = c; is = refl }))
NextFrame-cases (failed e c) = inr (inr (record { error = e; core = c; is = refl }))

nil_of_length : {A : Type 0} (xs : List A) → length xs ≡ 0 → xs ≡ []
nil_of_length [] h = refl
nil_of_length (x ∷ xs) h = absurd (omega arith)

module _ {C : Type 0} (ended : C → Bool) (next_frame : C → NextFrame C) where
  abbrev pub left_bytes : ℕ → Reader C → Str
  left_bytes k r = rest r ++ (drain ended next_frame k r.core).0

  abbrev pub left_end : ℕ → Reader C → ReadError
  left_end k r = (drain ended next_frame k r.core).1

  -- What a `Read` of `room` bytes behind `w` does where `d` is left and then `e`.
  pub record Delivered (d : Str) (e : ReadError) (w : Str) (room : ℕ) (res : ReadResult C)
      : Type 0 where
    pub bytes : res.bytes ≡ w ++ take room d
    pub no_error_yet : room ≤ length d → res.error ≡ no_error
    pub still_left :
        room ≤ length d
        → (k : ℕ) × (left_bytes k res.reader ≡ drop room d) × (left_end k res.reader ≡ e)
    pub at_the_end : length d < room → res.error ≡ final (w ++ d) e

  fill_none :
      (fuel k : ℕ) (r : Reader C) (w : Str)
      → Delivered (left_bytes k r) (left_end k r) w 0 (fill ended next_frame (suc fuel) r 0 w)
  unfolding fill
  fill_none fuel k r w = record {
    bytes = sym (append-nil w);
    no_error_yet = λ _. refl;
    still_left = λ _. (k, refl, refl);
    at_the_end = λ h. absurd (omega arith);
  }

  fill_copy :
      (fuel : ℕ) (r : Reader C) (room n : ℕ) (w : Str)
      → 0 < room
      → 0 < length (rest r)
      → n ≡ (if ltb room (length (rest r)) then room else length (rest r))
      → fill ended next_frame (suc fuel) r room w
        ≡ fill ended next_frame fuel
            (record r { out = r.out + n })
            (room - n)
            (w ++ take n (rest r))
  unfolding fill
  fill_copy fuel r room n w h l e = rw e (ground arith)

  fill_ended :
      (fuel : ℕ) (r : Reader C) (room : ℕ) (w : Str)
      → 0 < room
      → length (rest r) ≡ 0
      → ended r.core ≡ true
      → fill ended next_frame (suc fuel) r room w
        ≡ record { bytes = w; error = end_of_stream w; reader = r }
  unfolding fill
  fill_ended fuel r room w h l e = ground arith

  fill_frame :
      (fuel : ℕ) (r : Reader C) (room : ℕ) (w : Str) {c : C} {b : Str}
      → 0 < room
      → length (rest r) ≡ 0
      → ended r.core ≡ false
      → next_frame r.core ≡ frame c b
      → fill ended next_frame (suc fuel) r room w
        ≡ fill ended next_frame fuel (record { core = c; buf = b; out = 0 }) room w
  unfolding fill
  fill_frame fuel r room w h l e n = ground arith

  fill_eof :
      (fuel : ℕ) (r : Reader C) (room : ℕ) (w : Str) {c : C}
      → 0 < room
      → length (rest r) ≡ 0
      → ended r.core ≡ false
      → next_frame r.core ≡ at_eof c
      → fill ended next_frame (suc fuel) r room w
        ≡ record { bytes = w; error = end_of_stream w; reader = record r { core = c } }
  unfolding fill
  fill_eof fuel r room w h l e n = ground arith

  fill_failed :
      (fuel : ℕ) (r : Reader C) (room : ℕ) (w : Str) {x : CryptoError} {c : C}
      → 0 < room
      → length (rest r) ≡ 0
      → ended r.core ≡ false
      → next_frame r.core ≡ failed x c
      → fill ended next_frame (suc fuel) r room w
        ≡ record { bytes = w; error = read_failed x; reader = record r { core = c } }
  unfolding fill
  fill_failed fuel r room w h l e n = ground arith

  drain_failed :
      (fuel : ℕ) (c : C) {c' : C} {x : CryptoError}
      → ended c ≡ false
      → next_frame c ≡ failed x c'
      → drain ended next_frame (suc fuel) c ≡ ([], read_failed x)
  unfolding drain
  drain_failed fuel c h e = rw (h, e)

  -- One round copies `n` bytes, and the rest of the `Read` goes on behind them.
  Delivered-copy :
      (d : Str) (e : ReadError) (w : Str) (room n : ℕ) (res : ReadResult C)
      → n ≤ room
      → n ≤ length d
      → Delivered (drop n d) e (w ++ take n d) (room - n) res
      → Delivered d e w room res
  Delivered-copy d e w room n res h l v =
      let cut : take n d ++ take (room - n) (drop n d) ≡ take room d =
        take-take-append n (room - n) room d (omega arith) in
      let shorter : length (drop n d) ≡ length d - n = length-drop n d in
      record {
        bytes = v.bytes ∙ append_assoc w _ _ ∙ ap (λ t. w ++ t) cut;
        no_error_yet = λ g. v.no_error_yet (omega arith);
        still_left = λ g.
            let (k, b, x) = v.still_left (omega arith) in
            (k, b ∙ drop-drop (room - n) n room d (omega arith), x);
        at_the_end = λ g.
            v.at_the_end (omega arith)
            ∙ ap (λ t. final t e) (append_assoc w _ _ ∙ ap (λ t. w ++ t) (take-append-drop n d));
      }

  -- Nothing is left: the `Read` has ended behind `w`.
  Delivered-nil :
      (e : ReadError) (w : Str) (room : ℕ) (r : Reader C)
      → 0 < room
      → Delivered [] e w room (record { bytes = w; error = final w e; reader = r })
  Delivered-nil e w zero r h = absurd (omega arith)
  Delivered-nil e w (suc room) r h = record {
    bytes = sym (append-nil w);
    no_error_yet = λ g. absurd (omega arith);
    still_left = λ g. absurd (omega arith);
    at_the_end = λ g. ap (λ t. final t e) (sym (append-nil w));
  }

  -- What is left behind a round that copied `n` bytes of the pending frame.
  left_bytes-advance :
      (k n : ℕ) (r : Reader C)
      → n ≤ length (rest r)
      → left_bytes k (record r { out = r.out + n }) ≡ drop n (left_bytes k r)
  left_bytes-advance k n r h = rw (
    drop-append_le n (rest r) (drain ended next_frame k r.core).0 h,
    drop-drop n r.out (r.out + n) r.buf refl,
  )

  abbrev reader_at : C → Str → Reader C
  reader_at c b = record { core = c; buf = b; out = 0 }

  left-eq :
      (k : ℕ) (r : Reader C) {d : Str} {e : ReadError}
      → length (rest r) ≡ 0
      → drain ended next_frame k r.core ≡ (d, e)
      → (left_bytes k r ≡ d) × (left_end k r ≡ e)
  left-eq k r l p =
      (ap₂ (λ x y. x ++ y) (nil_of_length (rest r) l) (ap (λ t. t.0) p), ap (λ t. t.1) p)

  Delivered-cast :
      {d d' : Str} {e e' : ReadError} {w : Str} {room : ℕ} {res res' : ReadResult C}
      → d ≡ d'
      → e ≡ e'
      → res ≡ res'
      → Delivered d e w room res
      → Delivered d' e' w room res'
  Delivered-cast p q t v = rw (← p, ← q, ← t) v

  ended_Delivered :
      (fuel k : ℕ) (r : Reader C) (room : ℕ) (w : Str)
      → 0 < room
      → length (rest r) ≡ 0
      → ended r.core ≡ true
      → left_end k r ≢ stalled
      → Delivered (left_bytes k r) (left_end k r) w room (fill ended next_frame (suc fuel) r room w)
  ended_Delivered fuel zero r room w h l e s = absurd (s (unfold drain in refl))
  ended_Delivered fuel (suc k) r room w h l e s =
      Delivered-cast (sym (left-eq (suc k) r l (drain_ended ended next_frame k r.core e)).0)
        (sym (left-eq (suc k) r l (drain_ended ended next_frame k r.core e)).1)
        (sym (fill_ended fuel r room w h l e)) (Delivered-nil eof w room r h)

  eof_Delivered :
      (fuel k : ℕ) (r : Reader C) (room : ℕ) (w : Str) {c : C}
      → 0 < room
      → length (rest r) ≡ 0
      → ended r.core ≡ false
      → next_frame r.core ≡ at_eof c
      → left_end k r ≢ stalled
      → Delivered (left_bytes k r) (left_end k r) w room (fill ended next_frame (suc fuel) r room w)
  eof_Delivered fuel zero r room w h l e x s = absurd (s (unfold drain in refl))
  eof_Delivered fuel (suc k) r room w h l e x s =
      let left = left-eq (suc k) r l (drain_eof ended next_frame k r.core x) in
      Delivered-cast (sym left.0) (sym left.1) (sym (fill_eof fuel r room w h l e x))
        (Delivered-nil eof w room _ h)

  failed_Delivered :
      (fuel k : ℕ) (r : Reader C) (room : ℕ) (w : Str) {x : CryptoError} {c : C}
      → 0 < room
      → length (rest r) ≡ 0
      → ended r.core ≡ false
      → next_frame r.core ≡ failed x c
      → left_end k r ≢ stalled
      → Delivered (left_bytes k r) (left_end k r) w room (fill ended next_frame (suc fuel) r room w)
  failed_Delivered fuel zero r room w h l e x s = absurd (s (unfold drain in refl))
  failed_Delivered fuel (suc k) r room w {x = y} h l e x s =
      let left = left-eq (suc k) r l (drain_failed k r.core e x) in
      Delivered-cast (sym left.0) (sym left.1) (sym (fill_failed fuel r room w h l e x))
        (Delivered-nil (read_failed y) w room _ h)

  next_Delivered :
      (fuel k : ℕ) (r : Reader C) (room : ℕ) (w : Str) (c : C) (b : Str)
      → 0 < room
      → length (rest r) ≡ 0
      → ended r.core ≡ false
      → next_frame r.core ≡ frame c b
      → suc k + room < suc fuel
      → left_end (suc k) r ≢ stalled
      → (left_end k (reader_at c b) ≢ stalled
          → Delivered
              (left_bytes k (reader_at c b))
              (left_end k (reader_at c b))
              w
              room
              (fill ended next_frame fuel (reader_at c b) room w))
      → Delivered
          (left_bytes (suc k) r)
          (left_end (suc k) r)
          w
          room
          (fill ended next_frame (suc fuel) r room w)
  next_Delivered fuel k r room w c b h l e x f s later =
      let left = left-eq (suc k) r l (drain_frame ended next_frame k r.core e x) in
      Delivered-cast (sym left.0) (sym left.1) (sym (fill_frame fuel r room w h l e x))
        (later (λ q. s (left.1 ∙ q)))

  -- With fuel for every frame and every byte, a `Read` delivers what is left.
  pub fill-Delivered :
      (fuel k : ℕ) (r : Reader C) (room : ℕ) (w : Str)
      → k + room < fuel
      → left_end k r ≢ stalled
      → Delivered (left_bytes k r) (left_end k r) w room (fill ended next_frame fuel r room w)
  fill-Delivered zero k r room w f s = absurd (omega arith)
  fill-Delivered (suc fuel) k r zero w f s = fill_none fuel k r w
  fill-Delivered (suc fuel) zero r (suc room) w f s = absurd (s (unfold drain in refl))
  fill-Delivered (suc fuel) (suc k) r (suc room) w f s =
      elim (Bool-cases (ltb 0 (length (rest r)))) [
        | inl some_left ↦
            let n = if ltb (suc room) (length (rest r)) then suc room else length (rest r) in
            let pos : 0 < length (rest r) = ltb→lt _ _ some_left in
            let n_le : (n ≤ suc room) × (n ≤ length (rest r)) × (0 < n) = ground arith in
            let r' : Reader C = record r { out = r.out + n } in
            let taken : take n (rest r) ≡ take n (left_bytes (suc k) r) =
              sym (take-append_le n (rest r) _ n_le.1) in
            let later : Delivered (left_bytes (suc k) r') (left_end (suc k) r)
                (w ++ take n (rest r)) (suc room - n)
                (fill ended next_frame fuel r' (suc room - n) (w ++ take n (rest r))) =
              fill-Delivered fuel (suc k) r' (suc room - n) (w ++ take n (rest r)) (omega arith)
                s in
            let whole : n ≤ length (left_bytes (suc k) r) =
              omega (arith, length-append (rest r) (drain ended next_frame (suc k) r.core).0) in
            rw (fill_copy fuel r (suc room) n w (omega arith) pos refl) (
              Delivered-copy (left_bytes (suc k) r) (left_end (suc k) r) w (suc room) n _ n_le.0
                whole (rw (← left_bytes-advance (suc k) n r n_le.1, ← taken) later))
        | inr none_left ↦
            let empty : length (rest r) ≡ 0 = omega (arith, ltb→le _ _ none_left) in
            elim (Bool-cases (ended r.core)) [
              | inl e ↦ ended_Delivered fuel (suc k) r (suc room) w (omega arith) empty e s
              | inr e ↦ elim (NextFrame-cases (next_frame r.core)) [
                | inl x ↦
                    next_Delivered fuel k r (suc room) w x.core x.bytes (omega arith) empty e x.is f
                      s
                      (λ q.
                        fill-Delivered fuel k (reader_at x.core x.bytes) (suc room) w (omega arith)
                          q)
                | inr (inl x) ↦
                    eof_Delivered fuel (suc k) r (suc room) w (omega arith) empty e x.is s
                | inr (inr x) ↦
                    failed_Delivered fuel (suc k) r (suc room) w (omega arith) empty e x.is s
              ]
            ]
      ]
