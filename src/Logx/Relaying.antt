-- ===== src/Logx/Relaying.antt =====
-- The two calls of `Copy` that a relayed connection runs at once, in `pipeConn` of
-- internal/relay/tcp.go, `pipeSOCKS` of internal/proxy/socks.go and `handleConnect` of
-- internal/proxy/http.go: the lines of both, as they come, and the counts.
use go_packet_repeater.Base.{
  ℕ, ◌+◌, ◌≡◌, ◌≤◌, take, arith, Bool, true, false, Option, List, [], ◌∷◌, ◌++◌, Bytes, All,
  All-append, Bool-cases, inl, inr, is_empty, length, ap,
}
use go_packet_repeater.Logx.{
  Logger, Line, text, chunk_line, closed_line, data_line, new, clamp, dump, debug, Status, more,
  eof, broken, Chunk, Wrote, Copied, Output, copy_from, copy, nothing, next_write, write_chunk,
  after_read, log_first, io_copy,
}
use go_packet_repeater.Logx.Copying.{copy-io_copy}
use go_packet_repeater.Logx.Tiers.{logger}

-- What the two sides give and take: what is read for the copy to the target (`true`) and for the
-- one to the client, what the writes of each give, and whose line comes next in the log.
pub record Exchange : Type 0 where
  pub reads : Bool → List Chunk
  pub writes : Bool → List Wrote
  pub order : List Bool

-- Lines of two goroutines, in an order.
unfoldable pub merge : List Bool → List Line → List Line → List Line
merge [] xs ys = xs ++ ys
merge (true ∷ bs) [] ys = ys
merge (true ∷ bs) (x ∷ xs) ys = x ∷ merge bs xs ys
merge (false ∷ bs) xs [] = xs
merge (false ∷ bs) xs (y ∷ ys) = y ∷ merge bs xs ys

pub record Piped : Type 0 where
  pub lines : List Line
  pub sent : ℕ
  pub recv : ℕ

abbrev one_way : Option Logger → Bytes → Exchange → Bool → Output
one_way log label t out = copy log label out (t.reads out) (t.writes out)

-- `pipeConn`, `pipeSOCKS`, and the end of `handleConnect`
unfoldable pub pipe_conn : Option Logger → Bytes → Exchange → Piped
unfolding merge
pipe_conn log label t = record {
  lines = merge t.order (one_way log label t true).1 (one_way log label t false).1;
  sent = (one_way log label t true).0.total;
  recv = (one_way log label t false).0.total;
}

-- The second list and the third, each in its own order, make up the first.
pub data Mixed : List Line → List Line → List Line → Type 0 where
  none_left : Mixed [] [] []
  from_first : {ls xs ys : List Line} (x : Line) → Mixed ls xs ys → Mixed (x ∷ ls) (x ∷ xs) ys
  from_second : {ls xs ys : List Line} (y : Line) → Mixed ls xs ys → Mixed (y ∷ ls) xs (y ∷ ys)

Mixed-second : (ys : List Line) → Mixed ys [] ys
Mixed-second [] = none_left
Mixed-second (y ∷ ys) = from_second y (Mixed-second ys)

append-Mixed : (xs ys : List Line) → Mixed (xs ++ ys) xs ys
append-Mixed [] ys = Mixed-second ys
append-Mixed (x ∷ xs) ys = from_first x (append-Mixed xs ys)

Mixed-first : (xs : List Line) → Mixed xs xs []
Mixed-first [] = none_left
Mixed-first (x ∷ xs) = from_first x (Mixed-first xs)

merge-Mixed : (bs : List Bool) (xs ys : List Line) → Mixed (merge bs xs ys) xs ys
unfolding merge
merge-Mixed [] xs ys = append-Mixed xs ys
merge-Mixed (true ∷ bs) [] ys = Mixed-second ys
merge-Mixed (true ∷ bs) (x ∷ xs) ys = from_first x (merge-Mixed bs xs ys)
merge-Mixed (false ∷ bs) xs [] = Mixed-first xs
merge-Mixed (false ∷ bs) xs (y ∷ ys) = from_second y (merge-Mixed bs xs ys)

-- The lines that may stand between the begin and the end of a connection, by the level and -v.
abbrev pub Allowed : ℕ → Bool → Bytes → Line → Type 0
Allowed level verbose label (text words) = ⊥
Allowed level verbose label (chunk_line own out n) = (level ≡ 3) × (own ≡ label)
Allowed level verbose label (closed_line own sent recv) = ⊥
Allowed level verbose label (data_line own out bytes) = (verbose ≡ true) × (own ≡ label)

Mixed-All :
    (P : Line → Type 0) {ls xs ys : List Line} → Mixed ls xs ys → All P xs → All P ys → All P ls
Mixed-All P none_left h k = tt
Mixed-All P (from_first x m) (p, h) k = (p, Mixed-All P m h k)
Mixed-All P (from_second y m) h (p, k) = (p, Mixed-All P m h k)

module _ (level : ℕ) (verbose : Bool) (label : Bytes) (out : Bool) (bound : level ≤ 3) where
  Fine : Output → Type 0
  Fine o = All (Allowed level verbose label) o.1

  shown-Allowed :
      (p : Bytes)
      → All (Allowed level verbose label) (
          dump (logger level verbose) label out p
          ++ debug (logger level verbose) (chunk_line label out (length p)))
  unfolding dump debug new clamp
  shown-Allowed p = ground (arith, bound)

  after_read-Fine :
      (s : Status) (c : Copied) (next : Copied → Output)
      → ((c' : Copied) → Fine (next c'))
      → Fine (after_read s c next)
  unfolding after_read Fine
  after_read-Fine more c next h = h c
  after_read-Fine eof c next h = tt
  after_read-Fine (broken x) c next h = tt

  round-Fine :
      (lines : List Line) (w : Wrote) (p : Bytes) (c : Copied) (next : Copied → Output)
      → All (Allowed level verbose label) lines
      → ((c' : Copied) → Fine (next c'))
      → Fine (log_first lines (write_chunk w p c next))
  unfolding log_first write_chunk Fine
  round-Fine lines w p c next a h =
      let c' = record c { total = c.total + w.count; delivered = c.delivered ++ take w.count p } in
      ground (
        arith,
        All-append (Allowed level verbose label) lines [] a tt,
        All-append (Allowed level verbose label) lines (next c').1 a (h c'),
      )

  copy_from-Fine :
      (rs : List Chunk) (ws : List Wrote) (c : Copied)
      → Fine (copy_from (logger level verbose) label out rs ws c)
  unfolding copy_from
  copy_from-Fine [] ws c = unfold Fine in tt
  copy_from-Fine (r ∷ rs) ws c = elim (Bool-cases (is_empty r.bytes)) [
    | inl e ↦ rw (e, copy_from) (after_read-Fine r.status c _ (copy_from-Fine rs ws))
    | inr e ↦
        let (w, ws') = next_write ws r.bytes in
        rw (e, copy_from)
          (round-Fine _ w r.bytes c _ (shown-Allowed r.bytes)
            (λ c'. after_read-Fine r.status c' _ (copy_from-Fine rs ws')))
  ]

  copy-Allowed :
      (rs : List Chunk) (ws : List Wrote)
      → All (Allowed level verbose label) (copy (logger level verbose) label out rs ws).1
  unfolding copy Fine
  copy-Allowed rs ws = ground (arith, copy_from-Fine rs ws nothing)

-- The bytes that `io.Copy` would count one way.
abbrev pub total : Exchange → Bool → ℕ
total t out = (io_copy (t.reads out) (t.writes out) 0 []).total

-- What is logged while a connection is relayed, and what is counted.
pub record Relays (level : ℕ) (verbose : Bool) (label : Bytes) (t : Exchange) (p : Piped)
    : Type 0 where
  pub mixed :
      Mixed p.lines
        (copy (logger level verbose) label true (t.reads true) (t.writes true)).1
        (copy (logger level verbose) label false (t.reads false) (t.writes false)).1
  pub allowed : All (Allowed level verbose label) p.lines
  pub sent : p.sent ≡ total t true
  pub recv : p.recv ≡ total t false

pub pipe_conn-Relays :
    (level : ℕ) (verbose : Bool) (label : Bytes) (t : Exchange)
    → level ≤ 3
    → Relays level verbose label t (pipe_conn (logger level verbose) label t)
unfolding pipe_conn
pipe_conn-Relays level verbose label t h =
    let m = merge-Mixed t.order _ _ in
    record {
      mixed = m;
      allowed =
          Mixed-All (Allowed level verbose label) m
            (copy-Allowed level verbose label true h (t.reads true) (t.writes true))
            (copy-Allowed level verbose label false h (t.reads false) (t.writes false));
      sent = counted true;
      recv = counted false;
    }
  where
    counted : (out : Bool) → (one_way (logger level verbose) label t out).0.total ≡ total t out
    counted out =
        ap (λ c. c.total)
          (copy-io_copy (logger level verbose) label out (t.reads out) (t.writes out))
