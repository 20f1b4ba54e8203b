-- ===== src/Sniff/Peek/Log.antt =====
-- The log text of stream_sniff_log_sni of src/stream_sniff.c.
use tinyproxy.Base.{◌≡◌, ◌≢◌, sym, ◌∙◌, refl, true, ◌⊎◌, inl, inr, [], ◌∷◌, some, arith, Bytes}
use mathlib.Core.Path.{subst}
use tinyproxy.Sniff.Reader.{SniffStatus, not_observed, parsed}
use tinyproxy.Sniff.Hello.{all_host_chars}
use tinyproxy.Sniff.Peek.{StreamSniff, status_text, stream_sniff_log_sni}
use tinyproxy.Sniff.Peek.State.{Holds, IsState}

-- The text of a state with the given status and name.
abbrev shown : SniffStatus → Bytes → Bytes
shown st sni =
    stream_sniff_log_sni (some (record { sni = sni; status = st; observed = 0; done = true }))

abbrev IsBracketed : Bytes → Type 0
IsBracketed [] = ⊥
IsBracketed (c ∷ cs) = c ≡ b'<'

not-IsBracketed : (sni : Bytes) → all_host_chars sni ≡ true → ¬ IsBracketed sni
unfolding all_host_chars
not-IsBracketed [] h b = b
not-IsBracketed (c ∷ cs) h b = ground arith

bracketed : (st : SniffStatus) → IsBracketed (status_text st)
bracketed not_observed = refl
bracketed _ = refl

abbrev Shows : SniffStatus → Bytes → Type 0
Shows st sni =
    ((st ≡ parsed) × (shown st sni ≡ sni) × ¬ IsBracketed sni)
    ⊎ ((st ≢ parsed) × (sni ≡ []) × (shown st sni ≡ status_text st))

shows : (st : SniffStatus) (sni : Bytes) → Holds st sni → Shows st sni
unfolding stream_sniff_log_sni
shows parsed sni h = inl (refl, ground arith, not-IsBracketed sni h.0)
shows not_observed sni h = inr ((λ e. cc), h, refl)
shows _ sni h = inr ((λ e. cc), h, refl)

-- The texts of the statuses differ.
status_text_injective : (s t : SniffStatus) → status_text s ≡ status_text t → s ≡ t
status_text_injective not_observed t h = ground arith
status_text_injective _ t h = ground arith

log-shown : (s : StreamSniff) → stream_sniff_log_sni (some s) ≡ shown s.status s.sni
unfolding stream_sniff_log_sni
log-shown s = refl

agree :
    (s t : SniffStatus) (a b : Bytes)
    → Shows s a
    → Shows t b
    → shown s a ≡ shown t b
    → (s ≡ t) × (a ≡ b)
agree s t a b (inl h) (inl k) e = (cc (h.0, k.0), cc (h.1, k.1, e))
agree s t a b (inr h) (inr k) e = (status_text_injective s t (sym h.2 ∙ e ∙ k.2), cc (h.1, k.1))
agree s t a b (inl h) (inr k) e =
    absurd (h.2 (subst IsBracketed (sym (sym h.1 ∙ e ∙ k.2)) (bracketed t)))
agree s t a b (inr h) (inl k) e = absurd (k.2 (subst IsBracketed (sym h.2 ∙ e ∙ k.1) (bracketed s)))

-- The log text of a well-formed state determines its status and its name: a name never reads like
-- one of the bracketed words.
pub log_sni_injective :
    (s t : StreamSniff)
    → IsState s
    → IsState t
    → stream_sniff_log_sni (some s) ≡ stream_sniff_log_sni (some t)
    → (s.status ≡ t.status) × (s.sni ≡ t.sni)
log_sni_injective s t v w e =
    let same : shown s.status s.sni ≡ shown t.status t.sni = sym (log-shown s) ∙ e ∙ log-shown t in
    agree s.status t.status s.sni t.sni (shows s.status s.sni v.name) (shows t.status t.sni w.name)
      same
