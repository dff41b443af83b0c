-- ===== src/Server/Config/Redis/Tls.antt =====
-- config.go, `loadRedisTLSFromEnv`.
use text.Mathlib.TextEquality.{eq_iff}
use orders_go.Common.{
  ◌≡◌, ◌≢◌, ◌↔◌, refl, sym, ◌∙◌, String, true, false, none, some, [], arith, inl, inr,
}
use orders_go.Server.Config.{Host, variable}
use orders_go.Server.Config.Redis.{
  TlsConfig, Loaded, load_insecure, load_roots, load_certificate, load_tls, and_then, returned,
  read_files,
}

module _ {Pool Certificate : Type 0} (h : Host Pool Certificate) where
  abbrev pub AreBlank : Type 0
  AreBlank =
      (variable h "REDIS_TLS_CA_FILE" ≡ "")
      × (variable h "REDIS_TLS_CERT_FILE" ≡ "")
      × (variable h "REDIS_TLS_KEY_FILE" ≡ "")
      × (variable h "REDIS_TLS_SERVER_NAME" ≡ "")
      × (variable h "REDIS_TLS_INSECURE_SKIP_VERIFY" ≡ "")

  -- What a configuration for TLS has to do with the variables.
  pub record IsConfigured (tls : TlsConfig Pool Certificate) : Type 0 where
    server : tls.server_name ≡ variable h "REDIS_TLS_SERVER_NAME"
    roots : tls.root_cas ≡ none ↔ variable h "REDIS_TLS_CA_FILE" ≡ ""
    certified : tls.certificates ≡ [] ↔ variable h "REDIS_TLS_CERT_FILE" ≡ ""
    paired : variable h "REDIS_TLS_CERT_FILE" ≡ "" ↔ variable h "REDIS_TLS_KEY_FILE" ≡ ""
    verified :
        tls.insecure_skip_verify ≡ true
        → (variable h "REDIS_TLS_INSECURE_SKIP_VERIFY" ≢ "")
          × (h.parse_bool (variable h "REDIS_TLS_INSECURE_SKIP_VERIFY") ≡ (true, none))

  insecure_lem :
      (raw : String) (tls t : TlsConfig Pool Certificate)
      → tls.insecure_skip_verify ≡ false
      → load_insecure h raw tls ≡ inr t
      → (t.server_name ≡ tls.server_name)
        × (t.root_cas ≡ tls.root_cas)
        × (t.certificates ≡ tls.certificates)
        × (t.insecure_skip_verify ≡ true → (raw ≢ "") × (h.parse_bool raw ≡ (true, none)))
  unfolding load_insecure
  insecure_lem raw tls t off done = ground (arith, eq_iff raw "")

  roots_lem :
      (file : String) (tls t : TlsConfig Pool Certificate)
      → tls.root_cas ≡ none
      → load_roots h file tls ≡ inr t
      → (t.server_name ≡ tls.server_name)
        × (t.root_cas ≡ none ↔ file ≡ "")
        × (t.certificates ≡ tls.certificates)
        × (t.insecure_skip_verify ≡ tls.insecure_skip_verify)
  unfolding load_roots
  roots_lem file tls t off done = ground (arith, eq_iff file "")

  certificate_lem :
      (cert key : String) (tls t : TlsConfig Pool Certificate)
      → tls.certificates ≡ []
      → load_certificate h cert key tls ≡ inr t
      → (t.server_name ≡ tls.server_name)
        × (t.root_cas ≡ tls.root_cas)
        × (t.certificates ≡ [] ↔ cert ≡ "")
        × (t.insecure_skip_verify ≡ tls.insecure_skip_verify)
  unfolding load_certificate
  certificate_lem cert key tls t off done = ground (arith, eq_iff cert "")

  and_then-inr :
      (x : Loaded h) (f : TlsConfig Pool Certificate → Loaded h) (t : TlsConfig Pool Certificate)
      → and_then h x f ≡ inr t
      → (u : TlsConfig Pool Certificate) × (x ≡ inr u) × (f u ≡ inr t)
  and_then-inr (inl e) f t done = absurd (ground (arith, done))
  and_then-inr (inr u) f t done = (u, refl, done)

  -- What the branch that reads the files returns.
  read_files-IsConfigured :
      (t : TlsConfig Pool Certificate)
      → (variable h "REDIS_TLS_CERT_FILE" ≡ "" ↔ variable h "REDIS_TLS_KEY_FILE" ≡ "")
      → read_files h ≡ inr t
      → IsConfigured t
  unfolding read_files
  read_files-IsConfigured t paired done =
      let (v, both, third) = and_then-inr _ _ t done in
      let (u, first, second) = and_then-inr _ _ v both in
      let (s₁, r₁, c₁, i₁) =
        insecure_lem (variable h "REDIS_TLS_INSECURE_SKIP_VERIFY") _ u refl first in
      let (s₂, r₂, c₂, i₂) = roots_lem (variable h "REDIS_TLS_CA_FILE") u v r₁ second in
      let (s₃, r₃, c₃, i₃) =
        certificate_lem (variable h "REDIS_TLS_CERT_FILE") (variable h "REDIS_TLS_KEY_FILE") v t
          (c₂ ∙ c₁) third in
      record {
        server = s₃ ∙ s₂ ∙ s₁;
        roots = rw r₃ r₂;
        certified = c₃;
        paired = paired;
        verified = λ on. i₁ (sym (i₃ ∙ i₂) ∙ on);
      }

  returned-some : (x : Loaded h) → returned h x ≢ (none, none)
  returned-some (inl e) same = ground (arith, same)
  returned-some (inr t) same = ground (arith, same)

  returned-inr :
      (x : Loaded h) (t : TlsConfig Pool Certificate) → returned h x ≡ (some t, none) → x ≡ inr t
  returned-inr (inl e) t done = absurd (ground (arith, done))
  returned-inr (inr u) t done = ground (arith, done)

  -- A configuration comes from the branch that reads the files, with both or neither of the pair.
  tls_read :
      (t : TlsConfig Pool Certificate)
      → load_tls h ≡ (some t, none)
      → (variable h "REDIS_TLS_CERT_FILE" ≡ "" ↔ variable h "REDIS_TLS_KEY_FILE" ≡ "")
        × (read_files h ≡ inr t)
  unfolding load_tls
  tls_read t done =
      let ca = eq_iff (variable h "REDIS_TLS_CA_FILE") "" in
      let cert = eq_iff (variable h "REDIS_TLS_CERT_FILE") "" in
      let key = eq_iff (variable h "REDIS_TLS_KEY_FILE") "" in
      ground (arith, cert, key, returned-inr (read_files h) t)

  -- `loadRedisTLSFromEnv` returns neither a configuration nor an error exactly when all five variables
  -- are blank. A configuration that it returns has the server name of its variable, roots exactly when a CA file
  -- is named, a certificate exactly when a certificate file is named, and then a key file too; it skips verification only
  -- when that variable is set and parses as true.
  pub load_tls_outcome :
      (load_tls h ≡ (none, none) ↔ AreBlank)
      × ((t : TlsConfig Pool Certificate) → load_tls h ≡ (some t, none) → IsConfigured t)
  unfolding load_tls
  load_tls_outcome =
      let ca = eq_iff (variable h "REDIS_TLS_CA_FILE") "" in
      let cert = eq_iff (variable h "REDIS_TLS_CERT_FILE") "" in
      let key = eq_iff (variable h "REDIS_TLS_KEY_FILE") "" in
      let server = eq_iff (variable h "REDIS_TLS_SERVER_NAME") "" in
      let insecure = eq_iff (variable h "REDIS_TLS_INSECURE_SKIP_VERIFY") "" in
      let some_of = returned-some (read_files h) in
      (
        ground (arith, ca, cert, key, server, insecure, some_of),
        λ t done. let (paired, read) = tls_read t done in read_files-IsConfigured t paired read,
      )
