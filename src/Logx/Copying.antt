-- ===== src/Logx/Copying.antt =====
-- What `Copy` relays and what it prints.
use go_packet_repeater.Base.{
  ℕ, ◌+◌, ◌≤◌, ◌≡◌, ◌≢◌, arith, refl, Bool, Option, List, [], ◌∷◌, ◌++◌, Bytes, ◌==◌, is_empty,
  length, take, drop, length-append, take-drop, length-take, take-all, subst, ap, sym, ◌∙◌,
  Bool-cases, Option-cases, inl, inr, append_assoc, append-nil,
}
use go_packet_repeater.Logx.{
  Logger, Status, more, eof, broken, Chunk, Wrote, End, finished, short_write, write_failed, Copied,
  copy_from, io_copy, nothing, copy, next_write, ended,
}

copy_from-io_copy :
    (l : Option Logger) (label : Bytes) (out : Bool) (rs : List Chunk) (ws : List Wrote)
    (c : Copied)
    → (copy_from l label out rs ws c).0 ≡ io_copy rs ws c.total c.delivered
unfolding copy_from io_copy
copy_from-io_copy l label out [] ws c = refl
copy_from-io_copy l label out (r ∷ rs) ws c =
    let (w, ws') = next_write ws r.bytes in
    ground (
      arith,
      copy_from-io_copy l label out rs ws c,
      copy_from-io_copy l label out rs ws'
          (record c { total = c.total + w.count; delivered = c.delivered ++ take w.count r.bytes }),
    )

-- Whatever the level of the log and with or without the data dump, `Copy` gives the total, the
-- end and the delivered bytes that `io.Copy` gives for the same reads and writes.
pub copy-io_copy :
    (l : Option Logger) (label : Bytes) (out : Bool) (rs : List Chunk) (ws : List Wrote)
    → (copy l label out rs ws).0 ≡ io_copy rs ws 0 []
unfolding copy
copy-io_copy l label out rs ws = ground (arith, copy_from-io_copy l label out rs ws nothing)

-- What the reader gives before its stream ends.
abbrev pub received : List Chunk → Bytes
received [] = []
received (r ∷ rs) = r.bytes ++ (elim r.status [ more ↦ received rs | eof ↦ [] | broken e ↦ [] ])

-- From `n` bytes written and `d` delivered, the writer gets a part of what the reader gives from
-- its start on, all of it if the stream ends, and the total counts it.
pub record Relayed (rs : List Chunk) (n : ℕ) (d : Bytes) (c : Copied) : Type 0 where
  pub counted : c.total + length d ≡ n + length c.delivered
  pub rest : Bytes
  pub in_order : d ++ received rs ≡ c.delivered ++ rest
  pub all : c.end ≡ finished → rest ≡ []

chunk-Relayed :
    (p : Bytes) (s : Status) (rs : List Chunk) (n m : ℕ) (d : Bytes) (c : Copied)
    → m ≡ n + length p
    → Relayed rs m (d ++ p) c
    → Relayed (record { bytes = p; status = s } ∷ rs) n d (ended s m (d ++ p) c)
unfolding ended
chunk-Relayed p more rs n m d c e v = record {
  counted = omega (arith, e, v.counted, length-append d p);
  rest = v.rest;
  in_order = rw (← append_assoc d p (received rs)) v.in_order;
  all = v.all;
}
chunk-Relayed p eof rs n m d c e v = record {
  counted = omega (arith, e, length-append d p);
  rest = [];
  in_order = rw (append-nil p, append-nil (d ++ p)) refl;
  all = λ h. refl;
}
chunk-Relayed p (broken x) rs n m d c e v = record {
  counted = omega (arith, e, length-append d p);
  rest = [];
  in_order = rw (append-nil p, append-nil (d ++ p)) refl;
  all = λ h. refl;
}

-- The writer takes `k` bytes of a chunk, and the copying stops.
cut-Relayed :
    (p : Bytes) (s : Status) (rs : List Chunk) (n k : ℕ) (d : Bytes) (end : End)
    → k ≤ length p
    → end ≢ finished
    → Relayed
        (record { bytes = p; status = s } ∷ rs)
        n
        d
        (record { total = n + k; end = end; delivered = d ++ take k p })
cut-Relayed p s rs n k d end b stopped = record {
  counted = omega (arith, length-append d (take k p), length-take k p b);
  rest = drop k p ++ later;
  in_order = whole ∙ sym (append_assoc d (take k p) (drop k p ++ later));
  all = λ h. absurd (stopped h);
}
  where
    later : Bytes
    later = elim s [ more ↦ received rs | eof ↦ [] | broken e ↦ [] ]

    whole : d ++ (p ++ later) ≡ d ++ (take k p ++ (drop k p ++ later))
    whole =
        ap (λ x. d ++ x)
          (ap (λ x. x ++ later) (sym (take-drop k p)) ∙ append_assoc (take k p) (drop k p) later)

next_write-fits : (ws : List Wrote) (p : Bytes) → (next_write ws p).0.count ≤ length p
unfolding next_write
next_write-fits [] p = omega arith
next_write-fits (w ∷ ws) p = ground arith

io_copy-Relayed :
    (rs : List Chunk) (ws : List Wrote) (n : ℕ) (d : Bytes) → Relayed rs n d (io_copy rs ws n d)
unfolding io_copy
io_copy-Relayed [] ws n d = record { counted = refl; rest = []; in_order = refl; all = λ h. refl }
io_copy-Relayed (r ∷ rs) ws n d = elim (Bool-cases (is_empty r.bytes)) [
  | inl e ↦
      let none_read : r.bytes ≡ [] = ground (arith, e) in
      subst (Relayed (r ∷ rs) n d) (ground (arith, e, none_read, append-nil d)) (
        chunk-Relayed r.bytes r.status rs n n d (io_copy rs ws n (d ++ r.bytes))
          (ground (arith, none_read)) (io_copy-Relayed rs ws n (d ++ r.bytes)))
  | inr e ↦
      let b = next_write-fits ws r.bytes in
      let (w, ws') = next_write ws r.bytes in
      elim (Option-cases w.failure) [
        | inr (x, f) ↦
            subst (Relayed (r ∷ rs) n d) (ground (arith, e, f))
              (cut-Relayed r.bytes r.status rs n w.count d (write_failed x) b (λ h. cc))
        | inl f ↦ elim (Bool-cases (w.count == length r.bytes)) [
          | inr k ↦
              subst (Relayed (r ∷ rs) n d) (ground (arith, e, f, k))
                (cut-Relayed r.bytes r.status rs n w.count d short_write b (λ h. cc))
          | inl k ↦
              let same : w.count ≡ length r.bytes = ground (arith, k) in
              subst (Relayed (r ∷ rs) n d) (ground (arith, e, f, k, same, take-all r.bytes)) (
                chunk-Relayed r.bytes r.status rs n (n + w.count) d
                  (io_copy rs ws' (n + w.count) (d ++ r.bytes)) (omega (arith, same))
                  (io_copy-Relayed rs ws' (n + w.count) (d ++ r.bytes)))
        ]
      ]
]

-- The total that `Copy` returns is the number of bytes that its writer took; these are a first
-- part of what the reader gave before its stream ended, in order; and if the copying finished
-- without an error, they are all of it.
pub copy-Relayed :
    (l : Option Logger) (label : Bytes) (out : Bool) (rs : List Chunk) (ws : List Wrote)
    → Relayed rs 0 [] (copy l label out rs ws).0
copy-Relayed l label out rs ws =
    subst (Relayed rs 0 []) (sym (copy-io_copy l label out rs ws)) (io_copy-Relayed rs ws 0 [])
