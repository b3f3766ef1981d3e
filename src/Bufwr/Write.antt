-- ===== src/Bufwr/Write.antt =====
-- bufwr_write to its end, on each of its ways.
use spu_kit.Bufwr.Keeps.{
  pending-filled, pending, flush-cases, filled, fill_rest-filled, fill-filled, IsSound, Accepts,
}
use mathlib.Core.List.{append_assoc, append-nil}
use spu_kit.Base.Lists.{
  take-append-drop, length-take, length-drop, drop, take-take, take-append_right, take-append_left,
  length, take,
}
use spu_kit.Bufwr.Bytes.{load_bytes, length-load_bytes}
use spu_kit.Base.Int.{ℤ, is_negative}
use spu_kit.Io.Laws.{Documented}
use spu_kit.Bufwr.{bufwr_write, succeeded, large_write, fill_rest, flush, Bufwr}
use spu_kit.Base.{
  ◌-◌, ltb, inr, inl, Bool-cases, ◌∙◌, if◌then◌else◌, sym, ap, refl, leb, ◌++◌, ◌+◌, ◌^◌, ◌<◌, ◌≤◌,
  ◌≡◌, ℕ, false, arith, List,
}
use spu_kit.Fd.Write.{fd_write-Appends, Appends}
use spu_kit.Io.{sub32, Result, Os, done, spins, asserted, overrun, after}
use spu_kit.Fd.{Status, success, failure, fd_write}

module _ {W : Type 0} (os : Os W) (file : ℤ → W → List ℕ) (patience : W → ℕ)
    (doc : Documented os file patience) where
  module _ (fuel : ℕ) (f : Bufwr) (bs : List ℕ) (w : W) (sound : IsSound f)
      (open' : is_negative f.fd ≡ false) (fits : length bs < 2 ^ 64)
      (enough : patience w + f.max + length bs < fuel) where
    length-pending : length (pending f) ≡ f.cur
    length-pending = length-load_bytes f.buf 0 f.cur

    -- The second write of large_write.
    direct :
        (w' : W) (r : Result W Status)
        → file f.fd w' ≡ file f.fd w ++ pending f
        → patience w' ≤ patience w
        → Appends os file patience f.fd bs w' r
        → Accepts os file patience f bs w
            (after r (λ s w''. done (succeeded os s, record f { cur = 0 }) w''))
    unfolding load_bytes
    direct w' (done success w'') e p v = (
      omega arith,
      refl,
      refl,
      append-nil (file f.fd w'')
          ∙ v.0
          ∙ ap (λ t. t ++ bs) e
          ∙ append_assoc (file f.fd w) (pending f) bs,
      omega (arith, v.1),
    )
    direct w' (done (failure e') w'') e p ((k, l, q), m) = (
      omega arith,
      refl,
      refl,
      (
        f.cur + k,
        omega arith,
        q
            ∙ ap (λ t. t ++ take k bs) e
            ∙ append_assoc (file f.fd w) (pending f) (take k bs)
            ∙ ap (λ t. file f.fd w ++ t) (sym (take-append_right k (pending f) bs))
            ∙ ap (λ t. file f.fd w ++ take (t + k) (pending f ++ bs)) length-pending,
      ),
      omega arith,
    )
    direct w' spins e p v = v
    direct w' asserted e p v = v
    direct w' overrun e p v = v

    large-Accepts : Accepts os file patience f bs w (large_write os fuel f bs w)
    unfolding large_write
    large-Accepts =
        flush-cases os file patience doc
          (λ r. Accepts os file patience f bs w (
            after r (λ (flushed, f') w'.
              if flushed
              then after (fd_write os fuel f'.fd bs w') (λ s w''. done (succeeded os s, f') w'')
              else done (false, f') w')))
          fuel f w open' (omega arith) (omega arith)
          (λ w' e p.
            direct w' (fd_write os fuel f.fd bs w') e p
              (fd_write-Appends os file patience f.fd doc fuel bs w' fits (omega arith)))
          (λ w' k l e p. (
            sound,
            refl,
            refl,
            (
              k,
              omega arith,
              e
                  ∙ ap (λ t. file f.fd w ++ t)
                      (sym (take-append_left k (pending f) bs (omega (arith, length-pending)))),
            ),
            p,
          ))

    fill_rest-Accepts :
        f.cur + length bs ≤ f.max → Accepts os file patience f bs w (fill_rest os f bs w)
    unfolding filled
    fill_rest-Accepts h = rw (fill_rest-filled os file patience f bs w sound h) (
      (omega arith, omega arith),
      refl,
      refl,
      ap (λ t. file f.fd w ++ t) (pending-filled os file patience f bs),
      omega arith,
    )

    -- The bytes that fill the buffer, written out before the rest is put in it.
    module _ (space : ℕ) (room : space ≡ f.max - f.cur) (more : space < length bs)
        (rest : length bs < space + f.max) where
      abbrev front : Bufwr
      front = filled os file patience f (take space bs)

      length-front : length (take space bs) ≡ space
      length-front = omega (arith, length-take {0} space bs)

      pending-front : pending front ≡ pending f ++ take space bs
      unfolding filled
      pending-front = pending-filled os file patience f (take space bs)

      begins : (n : ℕ) → n ≡ f.cur + space → take n (pending f ++ bs) ≡ pending f ++ take space bs
      begins n e =
          let e' : n ≡ length (pending f) + space = omega (arith, length-pending) in
          rw e' (take-append_right space (pending f) bs)

      split-Accepts : Accepts os file patience f bs w (
          after (flush os fuel front w) (λ (flushed, f'') w''.
            if flushed then fill_rest os f'' (drop space bs) w'' else done (false, f'') w''))
      unfolding filled load_bytes
      split-Accepts =
          flush-cases os file patience doc
            (λ r. Accepts os file patience f bs w (
              after r (λ (flushed, f'') w''.
                if flushed then fill_rest os f'' (drop space bs) w'' else done (false, f'') w'')))
            fuel front w open' (omega (arith, length-front)) (omega (arith, length-front))
            (λ w' e p.
              let emptied : Bufwr = record front { cur = 0 } in
              rw
                (fill_rest-filled os file patience emptied (drop space bs) w' (omega arith)
                  (omega (arith, length-drop {0} space bs)))
                (
                  (omega (arith, length-drop {0} space bs), omega arith),
                  refl,
                  refl,
                  ap (λ t. file f.fd w' ++ t)
                        (pending-filled os file patience emptied (drop space bs))
                      ∙ ap (λ t. t ++ drop space bs) (e ∙ ap (λ t. file f.fd w ++ t) pending-front)
                      ∙ append_assoc (file f.fd w) (pending f ++ take space bs) (drop space bs)
                      ∙ ap (λ t. file f.fd w ++ t)
                          (append_assoc (pending f) (take space bs) (drop space bs)
                            ∙ ap (λ t. pending f ++ t) (take-append-drop space bs)),
                  p,
                ))
            (λ w' k l e p. (
              (omega (arith, length-front), omega arith),
              refl,
              refl,
              (
                k,
                omega (arith, length-front),
                e
                    ∙ ap (λ t. file f.fd w ++ take k t)
                        (pending-front ∙ sym (begins (f.cur + space) refl))
                    ∙ ap (λ t. file f.fd w ++ t)
                        (take-take k (f.cur + space) (pending f ++ bs)
                          (omega (arith, length-front))),
              ),
              p,
            ))

    -- From a sound buffer over an open file, on a system that behaves as documented and with fuel for
    -- the bytes and the interruptions, bufwr_write ends: no assertion fails and no copy leaves the
    -- array. Its buffer is sound; where it succeeds, the file followed by the buffer is what it was
    -- with the bytes behind it, and where it fails, the file has got a first part of that.
    pub bufwr_write-Accepts : Accepts os file patience f bs w (bufwr_write os fuel f bs w)
    unfolding bufwr_write
    bufwr_write-Accepts =
        let room : sub32 f.max f.cur ≡ f.max - f.cur = omega arith in
        elim (Bool-cases (leb (sub32 f.max f.cur + f.max) (length bs))) [
          | inl a ↦ rw a large-Accepts
          | inr a ↦ rw a (elim (Bool-cases (ltb (sub32 f.max f.cur) (length bs))) [
            | inl b ↦
                rw
                  (
                    b,
                    fill-filled os file patience f (take (sub32 f.max f.cur) bs) w sound
                        (omega (arith, length-take {0} (sub32 f.max f.cur) bs)),
                  )
                  (split-Accepts (sub32 f.max f.cur) room (ground arith) (ground arith))
            | inr b ↦ rw b (fill_rest-Accepts (ground arith))
          ])
        ]
