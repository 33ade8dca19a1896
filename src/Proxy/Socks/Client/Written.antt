-- ===== src/Proxy/Socks/Client/Written.antt =====
-- What a step of `dialUpstreamSOCKS` writes: only bytes, and a bounded number of them.
use go_packet_repeater.Base.{
  ℕ, ◌+◌, ◌≡◌, ◌≤◌, ◌<◌, ◌⊎◌, refl, arith, sym, subst, Bool, true, false, List, [], ◌∷◌, ◌++◌,
  Bytes, Result, ok, err, inl, inr, All, All-append, length, length-append,
}
use go_packet_repeater.Proxy.Socks.{
  Conn, SocksError, Session, and_then, ◌>>=◌, return, throw_if, read_full, write, write_under,
}
use go_packet_repeater.Proxy.Socks.Client.{closing, close_failed}

abbrev pub IsBytes : Bytes → Type 0
IsBytes = All (λ b. b < 256)

-- A call that writes at most `n` bytes, and nothing that is no byte.
pub record Writes {A : Type 0} (n : ℕ) (m : Session A) : Type 0 where
  pub bytes : (c : Conn) → IsBytes c.output → IsBytes (m c).1.output
  pub count : (c : Conn) → length (m c).1.output ≤ length c.output + n

pub bind-Writes :
    {A B : Type 0} {m : Session A} {f : A → Session B} (n k : ℕ)
    → Writes n m
    → ((a : A) → Writes k (f a))
    → Writes (n + k) (m >>= f)
bind-Writes {m} {f} n k hm hf = record {
  bytes = λ c h. bytes_from (m c) (hm.bytes c h);
  count = λ c. count_from c (m c) (hm.count c);
}
  where
    bytes_from :
        (r : Result SocksError _ × Conn) → IsBytes r.1.output → IsBytes (and_then r f).1.output
    bytes_from (ok a, c) h = (hf a).bytes c h
    bytes_from (err e, c) h = h

    count_from :
        (c : Conn) (r : Result SocksError _ × Conn)
        → length r.1.output ≤ length c.output + n
        → length (and_then r f).1.output ≤ length c.output + (n + k)
    count_from c (ok a, c') h = omega (arith, h, (hf a).count c')
    count_from c (err e, c') h = omega (arith, h)

closing-output : {A : Type 0} (m : Session A) (c : Conn) → (closing m c).1.output ≡ (m c).1.output
unfolding closing
closing-output {A} m c = from (m c)
  where
    from : (r : Result SocksError A × Conn) → (close_failed r).1.output ≡ r.1.output
    from (ok a, c) = refl
    from (err e, c) = refl

pub closing-Writes : {A : Type 0} {n : ℕ} (m : Session A) → Writes n m → Writes n (closing m)
closing-Writes m h = record {
  bytes = λ c b. subst IsBytes (sym (closing-output m c)) (h.bytes c b);
  count = λ c. rw (closing-output m c) (h.count c);
}

-- A call that leaves the output alone.
pub quiet-Writes :
    {A : Type 0} (m : Session A) → ((c : Conn) → (m c).1.output ≡ c.output) → Writes 0 m
quiet-Writes m h = record {
  bytes = λ c b. subst IsBytes (sym (h c)) b;
  count = λ c. rw (h c) (omega arith);
}

pub read_full-Writes : (n : ℕ) → Writes 0 (closing (read_full n))
unfolding read_full
read_full-Writes n = closing-Writes _ (quiet-Writes _ (λ c. ground arith))

pub throw_if-Writes : (bad : Bool) (e : SocksError) → Writes 0 (closing (throw_if bad e))
throw_if-Writes bad e = closing-Writes _ (quiet-Writes _ (λ c. ground arith))

pub return-Writes : {A : Type 0} (a : A) → Writes 0 (return a)
return-Writes a = quiet-Writes _ (λ c. refl)

write-output :
    (bs : Bytes) (c : Conn)
    → ((write bs c).1.output ≡ c.output) ⊎ ((write bs c).1.output ≡ c.output ++ bs)
unfolding write
write-output bs c = by_faults c.faults
  where
    by_faults :
        (fs : List Bool)
        → ((write_under fs bs c).1.output ≡ c.output)
          ⊎ ((write_under fs bs c).1.output ≡ c.output ++ bs)
    by_faults [] = inr refl
    by_faults (true ∷ fs) = inl refl
    by_faults (false ∷ fs) = inr refl

pub write-Writes : (n : ℕ) (bs : Bytes) → IsBytes bs → length bs ≤ n → Writes n (closing (write bs))
write-Writes n bs h l = closing-Writes _ record {
  bytes = λ c b. elim (write-output bs c) [
    | inl e ↦ subst IsBytes (sym e) b
    | inr e ↦ subst IsBytes (sym e) (All-append _ c.output bs b h)
  ];
  count = λ c. elim (write-output bs c) [
    | inl e ↦ rw e (omega arith)
    | inr e ↦ rw e (omega (arith, l, length-append c.output bs))
  ];
}
