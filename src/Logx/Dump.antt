-- ===== src/Logx/Dump.antt =====
-- What the data dump of `Copy` shows.
use go_packet_repeater.Base.{
  ◌+◌, ◌≡◌, arith, refl, Bool, true, false, Option, none, some, List, [], ◌∷◌, ◌++◌, Bytes,
  if◌then◌else◌, is_empty, length, take, take-all, ap, sym, ◌∙◌, Bool-cases, inl, inr, append_assoc,
  append-nil,
}
use go_packet_repeater.Logx.{
  Logger, Line, text, chunk_line, closed_line, data_line, is_verbose, dump, debug, Status, more,
  eof, broken, Chunk, Wrote, finished, Copied, Output, copy_from, nothing, copy, next_write,
  write_chunk, after_read, log_first,
}

-- The bytes that `Data` lines show.
abbrev pub dumped : List Line → Bytes
dumped [] = []
dumped (data_line label out p ∷ ls) = p ++ dumped ls
dumped (text t ∷ ls) = dumped ls
dumped (chunk_line label out n ∷ ls) = dumped ls
dumped (closed_line label sent recv ∷ ls) = dumped ls

dumped-append : (ls ms : List Line) → dumped (ls ++ ms) ≡ dumped ls ++ dumped ms
dumped-append [] ms = refl
dumped-append (data_line label out p ∷ ls) ms =
    ap (λ x. p ++ x) (dumped-append ls ms) ∙ sym (append_assoc p (dumped ls) (dumped ms))
dumped-append (text t ∷ ls) ms = dumped-append ls ms
dumped-append (chunk_line label out n ∷ ls) ms = dumped-append ls ms
dumped-append (closed_line label sent recv ∷ ls) ms = dumped-append ls ms

-- What the log shows of one chunk.
abbrev shown : Option Logger → Bytes → Bool → Bytes → List Line
shown l label out p = dump l label out p ++ debug l (chunk_line label out (length p))

dumped-shown :
    (l : Option Logger) (label : Bytes) (out : Bool) (p : Bytes)
    → dumped (shown l label out p) ≡ (if is_verbose l then p else [])
unfolding dump debug is_verbose
dumped-shown none label out p = ground arith
dumped-shown (some l) label out [] = ground arith
dumped-shown (some l) label out (x ∷ p) = ground (arith, append-nil p)

-- A part of the copying that starts with `c` shows what it delivers, or nothing.
record Shows (v : Bool) (c : Copied) (o : Output) : Type 0 where
  hidden : v ≡ false → dumped o.1 ≡ []
  dumps : v ≡ true → o.0.end ≡ finished → c.delivered ++ dumped o.1 ≡ o.0.delivered

after_read-Shows :
    (v : Bool) (s : Status) (c : Copied) (next : Copied → Output)
    → ((c' : Copied) → Shows v c' (next c'))
    → Shows v c (after_read s c next)
unfolding after_read
after_read-Shows v more c next h = h c
after_read-Shows v eof c next h = record {
  hidden = λ e. refl;
  dumps = λ e f. append-nil c.delivered;
}
after_read-Shows v (broken x) c next h = record {
  hidden = λ e. refl;
  dumps = λ e f. append-nil c.delivered;
}

round-Shows :
    (v : Bool) (lines : List Line) (w : Wrote) (p : Bytes) (c : Copied) (next : Copied → Output)
    → dumped lines ≡ (if v then p else [])
    → ((c' : Copied) → Shows v c' (next c'))
    → Shows v c (log_first lines (write_chunk w p c next))
unfolding log_first write_chunk
round-Shows v lines w p c next d h =
    let c' = record c { total = c.total + w.count; delivered = c.delivered ++ take w.count p } in
    let n = h c' in
    record {
      hidden =
          λ e. ground (arith, d, e, n.hidden e, append-nil lines, dumped-append lines (next c').1);
      dumps = λ e. ground (
        arith,
        d,
        e,
        n.dumps e,
        take-all p,
        append-nil lines,
        dumped-append lines (next c').1,
        append_assoc c.delivered p (dumped (next c').1),
      );
    }

copy_from-Shows :
    (l : Option Logger) (label : Bytes) (out : Bool) (rs : List Chunk) (ws : List Wrote)
    (c : Copied)
    → Shows (is_verbose l) c (copy_from l label out rs ws c)
unfolding copy_from
copy_from-Shows l label out [] ws c = record {
  hidden = λ e. refl;
  dumps = λ e f. append-nil c.delivered;
}
copy_from-Shows l label out (r ∷ rs) ws c = elim (Bool-cases (is_empty r.bytes)) [
  | inl e ↦
      rw (e, copy_from)
        (after_read-Shows (is_verbose l) r.status c _ (copy_from-Shows l label out rs ws))
  | inr e ↦
      let (w, ws') = next_write ws r.bytes in
      rw (e, copy_from)
        (round-Shows (is_verbose l) (shown l label out r.bytes) w r.bytes c _
          (dumped-shown l label out r.bytes)
          (λ c'.
            after_read-Shows (is_verbose l) r.status c' _ (copy_from-Shows l label out rs ws')))
]

-- The data lines of `Copy` show nothing if the log is not verbose; and if it is, and the copying
-- finished without an error, they show, joined, exactly the bytes that were delivered.
pub copy-dumped :
    (l : Option Logger) (label : Bytes) (out : Bool) (rs : List Chunk) (ws : List Wrote)
    → (is_verbose l ≡ false → dumped (copy l label out rs ws).1 ≡ [])
      × (is_verbose l ≡ true
          → (copy l label out rs ws).0.end ≡ finished
          → dumped (copy l label out rs ws).1 ≡ (copy l label out rs ws).0.delivered)
unfolding copy
copy-dumped l label out rs ws =
    let v = copy_from-Shows l label out rs ws nothing in
    ((λ e. ground (arith, e, v.hidden e)), (λ e. ground (arith, e, v.dumps e)))
