-- ===== src/Storage/Wal/Segments.antt =====
-- What a segment holds: appended records, and a stop marker behind them.
use quantadb.Prelude.{
  ℕ, zero, suc, ◌+◌, ◌-◌, ◌≤◌, ◌≡◌, refl, true, some, [], ◌∷◌, ◌++◌, length, drop, ltb, min, arith,
  ap, ◌∙◌, sym, subst, length-append, append_assoc, append-nil, length-replicate, length-drop,
  Bool-cases, Option-cases, inl, inr,
}
use quantadb.Prelude.Result.{ok, Result-cases}
use quantadb.Bytes.{Bytes, zeroes, write_at, overlay, checked_add}
use quantadb.Bytes.Slices.{length-write_at, write_at-length_append}
use quantadb.Storage.Log.{stop_marker}
use quantadb.Storage.Wal.{
  Segment, grow, zero_fill, fill_ahead, place, append_record, wal_zero_fill_ahead,
  wal_preallocate_bytes,
}

pub overlay_lem :
    (xs bs : Bytes) → length xs ≤ length bs → overlay xs bs ≡ xs ++ drop (length xs) bs
overlay_lem [] bs h = refl
overlay_lem (x ∷ xs) [] h = absurd (omega arith)
overlay_lem (x ∷ xs) (b ∷ bs) h = ap (λ t. x ∷ t) (overlay_lem xs bs (omega arith))

-- A write at the end of what is kept.
write_at-next :
    (log g xs : Bytes)
    → length xs ≤ length g
    → write_at (log ++ g) (length log) xs ≡ (log ++ xs) ++ drop (length xs) g
write_at-next log g xs h =
    write_at-length_append log g xs
    ∙ ap (λ t. log ++ t) (overlay_lem xs g h)
    ∙ sym (append_assoc log xs (drop (length xs) g))

-- A write beyond what is kept.
write_at-beyond :
    (log g : Bytes) (offset : ℕ) (xs : Bytes)
    → length log ≤ offset
    → write_at (log ++ g) offset xs ≡ log ++ write_at g (offset - length log) xs
write_at-beyond [] g offset xs h = ap (λ n. write_at g n xs) (omega arith)
write_at-beyond (x ∷ log) g zero xs h = absurd (omega arith)
write_at-beyond (x ∷ log) g (suc offset) xs h =
    ap (λ t. x ∷ t)
      (write_at-beyond log g offset xs (omega arith)
        ∙ ap (λ n. log ++ write_at g n xs) (omega arith))

-- `file` holds `log` up to `end`, a stop marker behind it, and has blocks beyond.
pub record Logged (log : Bytes) (s : Segment) : Type 0 where
  pub tail : Bytes
  pub bytes : s.file ≡ log ++ (stop_marker ++ tail)
  pub end : s.end_offset ≡ length log
  pub allocated : s.end_offset ≤ s.allocated_offset
  pub within : s.allocated_offset ≤ length s.file

-- What growing and filling ahead leave: the log, and room behind it.
record Room (log : Bytes) (needed : ℕ) (s : Segment) : Type 0 where
  free : Bytes
  bytes : s.file ≡ log ++ free
  end : s.end_offset ≡ length log
  room : needed ≤ length s.file
  allocated : needed ≤ s.allocated_offset
  within : s.allocated_offset ≤ length s.file

grow_lem :
    (s : Segment) (log : Bytes) (needed : ℕ) (file : Bytes)
    → Logged log s
    → grow s needed ≡ ok file
    → (more : Bytes) × (file ≡ s.file ++ more) × (needed ≤ length file)
unfolding grow
grow_lem s log needed file l h = elim (Bool-cases (ltb (length s.file) needed)) [
  | inl small ↦ elim (Option-cases (checked_add needed wal_preallocate_bytes)) [
    | inl e ↦ ground (arith, small, e)
    | inr (grown, e) ↦ (
      zeroes (grown - length s.file),
      ground (arith, small, e),
      longer needed wal_preallocate_bytes grown (length s.file) (length file) e (
          ap length (file_is grown small e)
          ∙ length-append s.file (zeroes (grown - length s.file))
          ∙ ap (λ n. length s.file + n) (length-replicate (grown - length s.file) 0)),
    )
  ]
  | inr large ↦ ([], ground (arith, large, append-nil s.file), ground (arith, large))
]
  where
    file_is :
        (grown : ℕ)
        → ltb (length s.file) needed ≡ true
        → checked_add needed wal_preallocate_bytes ≡ some grown
        → file ≡ s.file ++ zeroes (grown - length s.file)
    file_is grown small e = ground (arith, small, e)

    longer : (a b c n m : ℕ) → checked_add a b ≡ some c → m ≡ n + (c - n) → a ≤ m
    longer a b c n m e f = ground arith

fill_ahead-Room :
    (s : Segment) (log : Bytes) (needed : ℕ) (file more : Bytes)
    → Logged log s
    → file ≡ s.file ++ more
    → needed ≤ length file
    → Room log needed (fill_ahead s file needed)
unfolding fill_ahead zero_fill
fill_ahead-Room s log needed file more l e n = elim (Bool-cases (ltb s.allocated_offset needed)) [
  | inl short ↦
      rw (short, fill_ahead)
        (record {
          free =
              write_at kept (s.allocated_offset - length log)
                (zeroes (target - s.allocated_offset));
          bytes =
              ap (λ f. write_at f s.allocated_offset (zeroes (target - s.allocated_offset))) split
              ∙ write_at-beyond log kept s.allocated_offset (zeroes (target - s.allocated_offset))
                  (omega (arith, l.end, l.allocated));
          end = l.end;
          room = omega (
            arith,
            n,
            length-write_at file s.allocated_offset (zeroes (target - s.allocated_offset)),
          );
          allocated = omega (arith, n);
          within = omega (
            arith,
            length-write_at file s.allocated_offset (zeroes (target - s.allocated_offset)),
          );
        })
  | inr enough ↦
      rw (enough, fill_ahead)
        (record {
          free = kept;
          bytes = split;
          end = l.end;
          room = n;
          allocated = ground (arith, enough);
          within = omega (arith, ap length e, length-append s.file more, l.within);
        })
]
  where
    kept : Bytes
    kept = (stop_marker ++ l.tail) ++ more

    target : ℕ
    target = min (needed + wal_zero_fill_ahead) (length file)

    split : file ≡ log ++ kept
    split = e ∙ ap (λ t. t ++ more) l.bytes ∙ append_assoc log (stop_marker ++ l.tail) more

-- The header, the payload and the stop marker, one behind the other.
place-Logged :
    (s : Segment) (log : Bytes) (needed : ℕ) (header payload : Bytes)
    → needed ≡ length log + (length header + length payload) + 4
    → Room log needed s
    → Logged (log ++ (header ++ payload)) (place s header payload)
unfolding place
place-Logged s log needed header payload e r = record {
  tail = drop 4 (drop (length payload) (drop (length header) r.free));
  bytes = written ∙ regroup;
  end = omega (arith, r.end, length-append log (header ++ payload), length-append header payload);
  allocated = omega (arith, r.end, r.allocated);
  within = omega (arith, r.within, sizes);
}
  where
    g1 : Bytes
    g1 = drop (length header) r.free

    g2 : Bytes
    g2 = drop (length payload) g1

    room : length header + length payload + 4 ≤ length r.free
    room = omega (arith, ap length r.bytes, length-append log r.free, r.room)

    f1 : Bytes
    f1 = write_at s.file s.end_offset header

    f2 : Bytes
    f2 = write_at f1 (s.end_offset + length header) payload

    first : f1 ≡ (log ++ header) ++ g1
    first =
        ap (λ f. write_at f s.end_offset header) r.bytes
        ∙ ap (λ n. write_at (log ++ r.free) n header) r.end
        ∙ write_at-next log r.free header (omega (arith, room))

    second : f2 ≡ ((log ++ header) ++ payload) ++ g2
    second =
        ap (λ f. write_at f (s.end_offset + length header) payload) first
        ∙ ap (λ n. write_at ((log ++ header) ++ g1) n payload)
            (omega (arith, r.end, length-append log header))
        ∙ write_at-next (log ++ header) g1 payload
            (omega (arith, room, length-drop (length header) r.free))

    written :
        write_at f2 (s.end_offset + length header + length payload) stop_marker
        ≡ (((log ++ header) ++ payload) ++ stop_marker) ++ drop 4 g2
    written =
        ap (λ f. write_at f (s.end_offset + length header + length payload) stop_marker) second
        ∙ ap (λ n. write_at (((log ++ header) ++ payload) ++ g2) n stop_marker)
            (omega (arith, r.end, length-append log header, length-append (log ++ header) payload))
        ∙ write_at-next ((log ++ header) ++ payload) g2 stop_marker (
            omega
              (arith, room, length-drop (length header) r.free, length-drop (length payload) g1))

    regroup :
        (((log ++ header) ++ payload) ++ stop_marker) ++ drop 4 g2
        ≡ (log ++ (header ++ payload)) ++ (stop_marker ++ drop 4 g2)
    regroup =
        append_assoc ((log ++ header) ++ payload) stop_marker (drop 4 g2)
        ∙ ap (λ t. t ++ (stop_marker ++ drop 4 g2)) (append_assoc log header payload)

    sizes :
        length (write_at f2 (s.end_offset + length header + length payload) stop_marker)
        ≡ length s.file
    sizes =
        length-write_at f2 (s.end_offset + length header + length payload) stop_marker
        ∙ length-write_at f1 (s.end_offset + length header) payload
        ∙ length-write_at s.file s.end_offset header

-- A record appended to a segment stands behind the others.
pub append_record-Logged :
    (s : Segment) (log header payload : Bytes) (s' : Segment)
    → Logged log s
    → append_record s header payload ≡ ok s'
    → Logged (log ++ (header ++ payload)) s'
unfolding append_record
append_record-Logged s log header payload s' l h =
    elim (Option-cases (checked_add s.end_offset (length header + length payload))) [
      | inl e ↦ ground (arith, e)
      | inr (end, e) ↦ elim (Result-cases (grow s needed)) [
        | inr (x, g) ↦ ground (arith, e, g)
        | inl (file, g) ↦
            let (more, split, enough) = grow_lem s log needed file l g in
            subst (λ t. Logged (log ++ (header ++ payload)) t) (placed end file e g)
              (place-Logged (fill_ahead s file needed) log needed header payload
                (omega (arith, l.end)) (fill_ahead-Room s log needed file more l split enough))
      ]
    ]
  where
    needed : ℕ
    needed = s.end_offset + (length header + length payload) + 4

    placed :
        (end : ℕ) (file : Bytes)
        → checked_add s.end_offset (length header + length payload) ≡ some end
        → grow s needed ≡ ok file
        → place (fill_ahead s file needed) header payload ≡ s'
    placed end file e g = ground (arith, e, g, h)
