-- ===== src/Api/Credentials.antt =====
-- The requests that need no token, and how a request carries one.
use falcon_cache.Base.{
  ◌≡◌, refl, sym, ap, ◌∙◌, true, false, ◌==◌, Option, some, List, [], ◌∷◌, ◌++◌, Bool-cases,
  Option-cases, inl, inr, ◌⊎◌, arith,
}
use mathlib.Core.List.{Mem, mem-cons_self, mem-cons_of_mem}
use falcon_cache.Base.Equality.{bytes_eq, eq_of_bytes_eq}
use falcon_cache.Base.Text.{text, strip_prefix, is_any, is_blank}
use falcon_cache.Storage.Shard.{Bytes}
use falcon_cache.Core.Auth.{percent_decode}
use falcon_cache.Api.Router.{
  HttpRequest, is_probe, presented, header_key, query_key, split_amp, find_key,
}

-- The three probes, which need no token.
abbrev pub IsProbe : Bytes → Type 0
IsProbe path = (path ≡ text "/healthz") ⊎ ((path ≡ text "/readyz") ⊎ (path ≡ text "/health"))

pub is_probe-IsProbe : (path : Bytes) → is_probe path ≡ true → IsProbe path
unfolding is_any
is_probe-IsProbe path h = elim (Bool-cases (bytes_eq path (text "/healthz"))) [
  | inl healthz ↦ inl (eq_of_bytes_eq path (text "/healthz") healthz)
  | inr first ↦ elim (Bool-cases (bytes_eq path (text "/readyz"))) [
    | inl readyz ↦ inr (inl (eq_of_bytes_eq path (text "/readyz") readyz))
    | inr second ↦ elim (Bool-cases (bytes_eq path (text "/health"))) [
      | inl health ↦ inr (inr (eq_of_bytes_eq path (text "/health") health))
      | inr third ↦ let h' = rw (is_any, first, second, third) at h in cc
    ]
  ]
]

pub IsProbe-is_probe : (path : Bytes) → IsProbe path → is_probe path ≡ true
unfolding is_any
IsProbe-is_probe path (inl e) = rw e refl
IsProbe-is_probe path (inr (inl e)) = rw e refl
IsProbe-is_probe path (inr (inr e)) = rw e refl

prefix_inj : {a b : Bytes} → some a ≡ some b → a ≡ b
prefix_inj e = cc

strip_prefix-append : (p t u : Bytes) → strip_prefix p t ≡ some u → t ≡ p ++ u
unfolding strip_prefix
strip_prefix-append [] t u h = prefix_inj h
strip_prefix-append (p ∷ ps) [] u h = cc
strip_prefix-append (p ∷ ps) (c ∷ cs) u h = elim (Bool-cases (p == c)) [
  | inl same ↦
      let h' = rw (strip_prefix, same) at h in
      let front : c ≡ p = ground (arith, same) in
      rw front (ap (◌∷◌ p) (strip_prefix-append ps cs u h'))
  | inr other ↦ let h' = rw (strip_prefix, other) at h in cc
]

find_key-Mem :
    (t : Bytes) (parts : List Bytes) → find_key parts ≡ some t → Mem (text "api_key=" ++ t) parts
unfolding find_key
find_key-Mem t [] h = cc
find_key-Mem t (part ∷ parts) h = elim (Option-cases (strip_prefix (text "api_key=") part)) [
  | inl n ↦ let h' = rw (find_key, n) at h in mem-cons_of_mem part (find_key-Mem t parts h')
  | inr (u, e) ↦
      let h' = rw (find_key, e) at h in
      let whole : text "api_key=" ++ t ≡ part =
        ap (λ x. text "api_key=" ++ x) (sym (prefix_inj h'))
        ∙ sym (strip_prefix-append (text "api_key=") part u e) in
      rw whole mem-cons_self
]

module _ (header_str : Bytes → Option Bytes) (lossy : Bytes → Bytes) where
  -- The Authorization header is `Bearer ` and the token.
  abbrev pub InHeader : HttpRequest → Bytes → Type 0
  InHeader req token =
      (h : Bytes) × (req.authorization ≡ some h) × (header_str h ≡ some (text "Bearer " ++ token))

  -- A part of the query, between two `&`, is `api_key=` and the token in its percent encoding.
  abbrev pub InQuery : HttpRequest → Bytes → Type 0
  InQuery req token =
      (query t : Bytes) × (req.query ≡ some query)
      × Mem (text "api_key=" ++ t) (split_amp query)
      × (percent_decode lossy t ≡ token)

  pub InHeader-presented :
      (req : HttpRequest) (token : Bytes)
      → InHeader req token
      → presented header_str lossy req ≡ token
  unfolding presented strip_prefix
  InHeader-presented req token (h, carried, readable) = rw (presented, carried, readable) refl

  header_key-InHeader :
      (req : HttpRequest) (token : Bytes)
      → header_key header_str lossy req ≡ some token
      → InHeader req token
  header_key-InHeader req token h = elim (Option-cases req.authorization) [
    | inl n ↦ let h' = rw n at h in cc
    | inr (raw, e) ↦ elim (Option-cases (header_str raw)) [
      | inl n ↦ let h' = rw (e, n) at h in cc
      | inr (t, f) ↦
          let h' = rw (e, f) at h in
          (raw, e, f ∙ ap some (strip_prefix-append (text "Bearer ") t token h'))
    ]
  ]

  query_key-InQuery :
      (req : HttpRequest) (token : Bytes)
      → query_key header_str lossy req ≡ some token
      → InQuery req token
  query_key-InQuery req token h = elim (Option-cases req.query) [
    | inl n ↦ let h' = rw n at h in cc
    | inr (query, e) ↦ elim (Option-cases (find_key (split_amp query))) [
      | inl n ↦ let h' = rw (e, n) at h in cc
      | inr (t, f) ↦
          let h' = rw (e, f) at h in
          (query, t, e, find_key-Mem t (split_amp query) f, prefix_inj h')
    ]
  ]

  pub presented-carried :
      (req : HttpRequest) (token : Bytes)
      → is_blank token ≡ false
      → presented header_str lossy req ≡ token
      → InHeader req token ⊎ InQuery req token
  unfolding presented
  presented-carried req token some_token h = elim (Option-cases (header_key header_str lossy req)) [
    | inr (t, e) ↦
        let h' = rw (presented, e) at h in inl (header_key-InHeader req token (e ∙ ap some h'))
    | inl n ↦ elim (Option-cases (query_key header_str lossy req)) [
      | inr (t, e) ↦
          let h' = rw (presented, n, e) at h in inr (query_key-InQuery req token (e ∙ ap some h'))
      | inl m ↦ let h' = rw (presented, n, m) at h in let blank = ap is_blank h' ∙ some_token in cc
    ]
  ]
