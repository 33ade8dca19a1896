-- ===== src/Proxy/Http/Headers.antt =====
-- What `handleForward` passes on of a request and of its response.
use go_packet_repeater.Base.{
  ◌≡◌, refl, ap, sym, ◌∙◌, arith, Bool, true, false, ◌||◌, Option, List, [], ◌∷◌, ◌++◌, append-nil,
  append_assoc, Bytes, text_eq, text_eq_iff, if◌then◌else◌, Result, ok, err, Bool-cases,
  Result-cases, subst, codes, inl, inr,
}
use go_packet_repeater.Logx.{Logger, Wrote}
use go_packet_repeater.Logx.Copying.{Relayed, copy-Relayed}
use go_packet_repeater.Proxy.Http.{
  Header, values, del, del_all, add_all, Request, Response, hop_by_hop_headers, Forwarded,
  not_absolute, bad_gateway, answered, forward_answer, handle_forward,
}

abbrev pub is_among : Bytes → List Bytes → Bool
is_among name [] = false
is_among name (n ∷ ns) = text_eq n name || is_among name ns

pub values-del :
    (name n : Bytes) (h : Header)
    → values name (del n h) ≡ (if text_eq n name then [] else values name h)
unfolding values del
values-del name n [] = ground arith
values-del name n ((k, v) ∷ h) =
    ground (arith, values-del name n h, text_eq_iff k n, text_eq_iff k name, text_eq_iff n name)

pub values-del_all :
    (name : Bytes) (ns : List Bytes) (h : Header)
    → values name (del_all ns h) ≡ (if is_among name ns then [] else values name h)
unfolding del_all
values-del_all name [] h = refl
values-del_all name (n ∷ ns) h =
    values-del_all name ns (del n h) ∙ ground (arith, values-del name n h)

add_all-append : (to h : Header) → add_all to h ≡ to ++ h
unfolding add_all
add_all-append to [] = sym (append-nil to)
add_all-append to (line ∷ h) = add_all-append (to ++ line ∷ []) h ∙ append_assoc to (line ∷ []) h

-- `to` has the lines of `from`, but those that are meant for the next hop.
abbrev pub EndToEnd : Header → Header → Type 0
EndToEnd from to =
    (name : Bytes)
    → values name to ≡ (if is_among name hop_by_hop_headers then [] else values name from)

abbrev pub Forwards : (Request → Result Bytes Response) → Request → Forwarded → Type 0
Forwards transport r not_absolute = r.is_abs ≡ false
Forwards transport r (bad_gateway out e) =
    (r.is_abs ≡ true)
    × (record out { header = r.header } ≡ r)
    × EndToEnd r.header out.header
    × (transport out ≡ err e)
Forwards transport r (answered out status header copied) =
    (r.is_abs ≡ true)
    × (record out { header = r.header } ≡ r)
    × EndToEnd r.header out.header
    × ((resp : Response) × (transport out ≡ ok resp)
        × (status ≡ resp.status)
        × EndToEnd resp.header header
        × Relayed resp.content 0 [] copied.0)

forward-answer :
    (log : Option Logger) (transport : Request → Result Bytes Response) (writes : List Wrote)
    (label : Bytes) (r out : Request)
    → r.is_abs ≡ true
    → (record out { header = r.header } ≡ r)
    → EndToEnd r.header out.header
    → Forwards transport r (forward_answer log writes [] label out (transport out))
unfolding forward_answer
forward-answer log transport writes label r out a same h = elim (Result-cases (transport out)) [
  | inr (e, x) ↦
      subst (λ y. Forwards transport r (forward_answer log writes [] label out y)) (sym x)
        (a, same, h, x)
  | inl (resp, x) ↦
      subst (λ y. Forwards transport r (forward_answer log writes [] label out y)) (sym x)
        (
          a,
          same,
          h,
          (
            resp,
            x,
            refl,
            λ name.
                ap (values name) (add_all-append [] (del_all hop_by_hop_headers resp.header))
                ∙ values-del_all name hop_by_hop_headers resp.header,
            copy-Relayed log label false resp.content writes,
          ),
        )
]

-- What `handleForward` does, with no header set before: a request without an absolute URL is
-- refused; any other goes to the transport as it is, with all lines of its header but the
-- hop-by-hop ones; if the transport fails, the gateway error is answered; and if not, the answer
-- has the status of the response, all lines of its header but the hop-by-hop ones, and its body,
-- relayed in order and counted.
pub handle_forward-Forwards :
    (log : Option Logger) (transport : Request → Result Bytes Response) (writes : List Wrote)
    (r : Request)
    → Forwards transport r (handle_forward log transport [] writes r)
unfolding handle_forward
handle_forward-Forwards log transport writes r = elim (Bool-cases r.is_abs) [
  | inr e ↦ subst (λ b. Forwards transport r (if b then sent else not_absolute)) (sym e) e
  | inl e ↦
      subst (λ b. Forwards transport r (if b then sent else not_absolute)) (sym e)
        (forward-answer log transport writes label r out e refl
          (λ name. values-del_all name hop_by_hop_headers r.header))
]
  where
    label : Bytes
    label = codes "http " ++ (r.method ++ b' ' ∷ r.url)

    out : Request
    out = record r { header = del_all hop_by_hop_headers r.header }

    sent : Forwarded
    sent = forward_answer log writes [] label out (transport out)
