-- ===== src/Tunnel/Bind.antt =====
-- `BindRemotes` of share/tunnel/tunnel.go: the proxies that it makes of the remotes, and what it reports of
-- them. The proxies run only if all of them listen.
use chisel_uds.Prelude.{
  Text, codes, Bool, true, false, List, [], ◌∷◌, ◌++◌, ◌≡◌, refl, All, ap, ◌∙◌,
}
use chisel_uds.Settings.Remote.Types.{Remote}
use chisel_uds.Settings.Remote.Print.{to_string}
use chisel_uds.Tunnel.Proxy.{
  EndpointState, EndpointStateChange, System, Tried, refused, done, Listener, listen, new_proxy,
  state_change,
}

module _ (sys : System) (log session_id : Text) where
  -- the prefix of the logger that NewProxy forks
  abbrev pub proxy_log : Remote → Text
  proxy_log r = log ++ codes ": proxy#" ++ to_string r

  abbrev made_next :
      List EndpointStateChange × Tried Listener
      → List EndpointStateChange × Tried (List Listener)
      → List EndpointStateChange × Tried (List Listener)
  made_next (changes, refused e) later = (changes, refused e)
  made_next (changes, done l) (more, refused e) = (changes ++ more, refused e)
  made_next (changes, done l) (more, done ls) = (changes ++ more, done (l ∷ ls))

  -- the loop over the remotes, which a proxy that fails to listen ends
  unfoldable pub make_proxies : List Remote → List EndpointStateChange × Tried (List Listener)
  make_proxies [] = ([], done [])
  make_proxies (r ∷ rest) =
      let later = make_proxies rest in made_next (new_proxy sys (proxy_log r) session_id r) later

  -- `BindRemotes` up to the run of the proxies
  unfoldable pub bind_remotes :
      Bool → List Remote → List EndpointStateChange × Tried (List Listener)
  unfolding make_proxies
  bind_remotes inbound [] = ([], refused (codes "no remotes"))
  bind_remotes false (r ∷ rest) = ([], refused (codes "inbound connections blocked"))
  bind_remotes true (r ∷ rest) = make_proxies (r ∷ rest)

  -- the reports of proxies that listen
  abbrev pub opened : List Remote → List EndpointStateChange
  opened [] = []
  opened (r ∷ rest) =
      state_change session_id r EndpointState.pending []
      ∷ state_change session_id r EndpointState.active []
      ∷ opened rest

  -- The proxy of the remote comes to listen.
  abbrev pub Listening : Remote → Type 0
  Listening r = (l : Listener) × ((listen sys (proxy_log r) r).1 ≡ done l)

  new_proxy-done :
      (r : Remote) (l : Listener)
      → (listen sys (proxy_log r) r).1 ≡ done l
      → new_proxy sys (proxy_log r) session_id r ≡ (opened (r ∷ []), done l)
  unfolding new_proxy
  new_proxy-done r l h = rw (new_proxy, h) refl

  new_proxy-refused :
      (r : Remote) (e : Text)
      → (listen sys (proxy_log r) r).1 ≡ refused e
      → new_proxy sys (proxy_log r) session_id r ≡ (
        state_change session_id r EndpointState.pending []
            ∷ state_change session_id r EndpointState.failed e
            ∷ [],
        refused e,
      )
  unfolding new_proxy
  new_proxy-refused r e h = rw (new_proxy, h) refl

  make_proxies-refused :
      (before after : List Remote) (r : Remote) (e : Text)
      → All Listening before
      → (listen sys (proxy_log r) r).1 ≡ refused e
      → make_proxies (before ++ r ∷ after) ≡ (
        opened before
            ++ (state_change session_id r EndpointState.pending []
                ∷ state_change session_id r EndpointState.failed e
                ∷ []),
        refused e,
      )
  unfolding make_proxies
  make_proxies-refused [] after r e h f =
      ap (λ m. made_next m (make_proxies after)) (new_proxy-refused r e f)
  make_proxies-refused (b ∷ before) after r e h f =
      ap (λ m. made_next m (make_proxies (before ++ r ∷ after))) (new_proxy-done b h.0.0 h.0.1)
      ∙ ap (made_next (opened (b ∷ []), done h.0.0)) (make_proxies-refused before after r e h.1 f)

  -- When a remote's proxy cannot listen, BindRemotes fails with its error: the remotes behind it are not
  -- tried, and those before it were reported active and are not reported closed.
  pub bind_remotes-refused :
      (before after : List Remote) (r : Remote) (e : Text)
      → All Listening before
      → (listen sys (proxy_log r) r).1 ≡ refused e
      → bind_remotes true (before ++ r ∷ after) ≡ (
        opened before
            ++ (state_change session_id r EndpointState.pending []
                ∷ state_change session_id r EndpointState.failed e
                ∷ []),
        refused e,
      )
  unfolding bind_remotes
  bind_remotes-refused [] after r e h f = make_proxies-refused [] after r e h f
  bind_remotes-refused (b ∷ before) after r e h f = make_proxies-refused (b ∷ before) after r e h f
