-- ===== src/Server/Reload.antt =====
-- What a failing reload of main.go leaves.
use chproxy.Config.Load.{load_file, LoadError}
use chproxy.Scope.Types.{Networks}
use chproxy.Topology.{Address}
use chproxy.Base.{
  Bool, List, Option, Text, [], ap, arith, false, inl, inr, lookup, none, refl, some, true, ◌∙◌,
  ◌≡◌, ◌≢◌, ◌⊎◌,
}
use chproxy.Server.{Server, apply_to_server, finish_apply, after_load, proxy_for, reload_config}
use chproxy.Setup.Apply.{apply_config, new_reverse_proxy, proxy_config_changed}
use chproxy.Setup.Apply.Errors.{apply_config-keeps}
use chproxy.Setup.Find.{get_user, not_found, find_wildcarded_user_information}
use chproxy.Setup.Types.{Config, CacheConfig, ReverseProxy, Result, ok, err, panic, IpNet}

nobody-found :
    (rp : ReverseProxy) (name password : Text)
    → rp.users ≡ []
    → get_user rp name password ≡ not_found
unfolding get_user find_wildcarded_user_information lookup
nobody-found rp name password e =
    let unknown : lookup name rp.users ≡ none = ap (lookup name) e in
    let nobody : find_wildcarded_user_information rp rp.users name password ≡ not_found =
      ap (λ us. find_wildcarded_user_information rp us name password) e in
    rw (unknown, nobody, get_user) (ground arith)

module _ (parse_url : Text → Option Address) (open_store : CacheConfig → Bool) where
  failed_proxy :
      (cfg : Config) (s : Server) (r : ReverseProxy × Result (Unit {0}))
      → (finish_apply cfg s r).1 ≢ none
      → (r.1 ≢ ok tt) × ((finish_apply cfg s r).0.proxy ≡ some r.0)
  failed_proxy cfg s (rp, ok t) h = absurd (h refl)
  failed_proxy cfg s (rp, err e) h = (λ k. cc, refl)
  failed_proxy cfg s (rp, panic) h = (λ k. cc, refl)

  -- A configuration that changes the limits on idle connections and fails behind that leaves a proxy
  -- without users in the place of the one that runs: getUser finds nobody in it.
  pub apply_to_server-loses :
      (cfg : Config) (s : Server) (rp : ReverseProxy) (name password : Text)
      → s.proxy ≡ some rp
      → proxy_config_changed cfg rp ≡ true
      → (apply_to_server parse_url open_store cfg s).1 ≢ none
      → (q : ReverseProxy) × ((apply_to_server parse_url open_store cfg s).0.proxy ≡ some q)
        × (get_user q name password ≡ not_found)
  unfolding apply_to_server proxy_for new_reverse_proxy
  apply_to_server-loses cfg s rp name password runs changed fails =
      let base = proxy_for cfg s in
      let fresh : base ≡ new_reverse_proxy cfg = rw (runs, changed, proxy_for) refl in
      let r = apply_config parse_url open_store cfg base in
      let (failed, kept) = failed_proxy cfg s r fails in
      let same = apply_config-keeps parse_url open_store cfg base failed in
      (
        r.0,
        kept,
        nobody-found r.0 name password (same.0 ∙ ap (λ (p : ReverseProxy). p.users) fresh),
      )

  -- What serves requests: the proxy's part that a reload replaces, and the settings of the server.
  pub record SameService (rp : ReverseProxy) (s t : Server) : Type 0 where
    proxy : ReverseProxy
    stored : t.proxy ≡ some proxy
    users : proxy.users ≡ rp.users
    clusters : proxy.clusters ≡ rp.clusters
    caches : proxy.caches ≡ rp.caches
    services : proxy.services ≡ rp.services
    settings : t ≡ record s { proxy = some proxy }

  settings-kept :
      (cfg : Config) (s : Server) (r : ReverseProxy × Result (Unit {0}))
      → (finish_apply cfg s r).1 ≢ none
      → (finish_apply cfg s r).0 ≡ record s { proxy = some r.0 }
  settings-kept cfg s (rp, ok t) h = absurd (h refl)
  settings-kept cfg s (rp, err e) h = refl
  settings-kept cfg s (rp, panic) h = refl

  apply_to_server-keeps :
      (cfg : Config) (s : Server) (rp : ReverseProxy)
      → s.proxy ≡ some rp
      → proxy_config_changed cfg rp ≡ false
      → (apply_to_server parse_url open_store cfg s).1 ≢ none
      → SameService rp s (apply_to_server parse_url open_store cfg s).0
  unfolding apply_to_server proxy_for
  apply_to_server-keeps cfg s rp runs same fails =
      let base = proxy_for cfg s in
      let kept : base ≡ rp = rw (runs, same, proxy_for) refl in
      let r = apply_config parse_url open_store cfg base in
      let (failed, stored) = failed_proxy cfg s r fails in
      let (users, clusters, caches, services) =
        apply_config-keeps parse_url open_store cfg base failed in
      record {
        proxy = r.0;
        stored = stored;
        users = users ∙ ap (λ (p : ReverseProxy). p.users) kept;
        clusters = clusters ∙ ap (λ (p : ReverseProxy). p.clusters) kept;
        caches = caches ∙ ap (λ (p : ReverseProxy). p.caches) kept;
        services = services ∙ ap (λ (p : ReverseProxy). p.services) kept;
        settings = settings-kept cfg s r fails;
      }

  after_load-keeps :
      (s : Server) (rp : ReverseProxy) (loaded : LoadError ⊎ Config)
      → s.proxy ≡ some rp
      → ((cfg : Config) → loaded ≡ inr cfg → proxy_config_changed cfg rp ≡ false)
      → (after_load parse_url open_store s loaded).1 ≢ none
      → SameService rp s (after_load parse_url open_store s loaded).0
  after_load-keeps s rp (inl e) runs same fails = record {
    proxy = rp;
    stored = runs;
    users = refl;
    clusters = refl;
    caches = refl;
    services = refl;
    settings = ap (λ o. record s { proxy = o }) runs;
  }
  after_load-keeps s rp (inr cfg) runs same fails =
      apply_to_server-keeps cfg s rp runs (same cfg refl) fails

  -- A reload that fails, of a file for which proxyConfigChanged reports no change against the running
  -- proxy, keeps all that serves: the users, the clusters, the caches, the goroutines, and the
  -- settings of the server. (It reports one for an unchanged file whose two limits differ.)
  pub reload_config-keeps :
      (parse_cidr : Text → Option IpNet) (networks : List IpNet → Networks) (file : Config)
      (s : Server) (rp : ReverseProxy)
      → s.proxy ≡ some rp
      → ((cfg : Config)
          → load_file parse_cidr networks file ≡ inr cfg
          → proxy_config_changed cfg rp ≡ false)
      → (reload_config parse_url open_store parse_cidr networks file s).1 ≢ none
      → SameService rp s (reload_config parse_url open_store parse_cidr networks file s).0
  unfolding reload_config
  reload_config-keeps parse_cidr networks file s rp runs same fails =
      after_load-keeps s rp (load_file parse_cidr networks file) runs same fails
