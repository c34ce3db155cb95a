-- ===== src/Nginx/Statuses.antt =====
-- What `_collect_nginx` says of a URL, whatever the order of the listeners.
use cozy_nm.Base.{
  ◌≡◌, refl, ◌∙◌, String, ◌==◌, eq_iff, Bool, true, false, ◌&&◌, ◌||◌, is_some, List, [], ◌∷◌, any,
  Bool-cases, inl, inr,
}
use cozy_nm.Base.Dicts.{Dict, get, get-assign}
use cozy_nm.Nginx.Sites.{Listener, Site}
use cozy_nm.Nginx.Sockets.{Socket}
use cozy_nm.Nginx.Interfaces.{
  PublicInterface, is_up, was_up, status_of, note, vpn_url, vpn_open, site_url, site_open, note_vpn,
  note_sites, interfaces_by_url,
}

is_up-status_of : (b : Bool) → is_up (status_of b) ≡ b
is_up-status_of true = refl
is_up-status_of false = refl

or_swap : (a b c : Bool) → (a || (b || c)) ≡ ((b || a) || c)
or_swap true true c = refl
or_swap true false c = refl
or_swap false true c = refl
or_swap false false c = refl

was_up-note :
    (u v : String) (b : Bool) (d : Dict PublicInterface)
    → was_up (get u (note v b d)) ≡ ((v == u && b) || was_up (get u d))
unfolding note
was_up-note u v b d = elim (Bool-cases (v == u)) [
  | inl e ↦ rw (get-assign v u _ d, e, is_up-status_of (b || was_up (get v d)), (eq_iff v u).0 e)
  | inr e ↦ rw (get-assign v u _ d, e)
]

is_some-note :
    (u v : String) (b : Bool) (d : Dict PublicInterface)
    → is_some (get u (note v b d)) ≡ (v == u || is_some (get u d))
unfolding note
is_some-note u v b d = elim (Bool-cases (v == u)) [
  | inl e ↦ rw (get-assign v u _ d, e)
  | inr e ↦ rw (get-assign v u _ d, e)
]

module _ (node_ip : String) (running : Bool) (tcp : List Socket) (u : String) where
  abbrev vpn_at : Listener → Bool
  vpn_at l = vpn_url node_ip running tcp l == u

  abbrev site_at : Site → Bool
  site_at s = site_url node_ip running tcp s == u

  abbrev pub listed : List Listener → List Site → Bool
  listed ls ss = any site_at ss || any vpn_at ls

  abbrev pub served : List Listener → List Site → Bool
  served ls ss =
      any (λ s. site_at s && site_open node_ip running tcp s) ss
      || any (λ l. vpn_at l && vpn_open node_ip running tcp l) ls

  was_up-note_vpn :
      (ls : List Listener) (d : Dict PublicInterface)
      → was_up (get u (note_vpn node_ip running tcp ls d))
        ≡ (any (λ l. vpn_at l && vpn_open node_ip running tcp l) ls || was_up (get u d))
  unfolding note_vpn
  was_up-note_vpn [] d = refl
  was_up-note_vpn (l ∷ ls) d =
      was_up-note_vpn ls (note (vpn_url node_ip running tcp l) (vpn_open node_ip running tcp l) d)
      ∙ rw (was_up-note u (vpn_url node_ip running tcp l) (vpn_open node_ip running tcp l) d)
          (or_swap _ (vpn_at l && vpn_open node_ip running tcp l) (was_up (get u d)))

  is_some-note_vpn :
      (ls : List Listener) (d : Dict PublicInterface)
      → is_some (get u (note_vpn node_ip running tcp ls d)) ≡ (any vpn_at ls || is_some (get u d))
  unfolding note_vpn
  is_some-note_vpn [] d = refl
  is_some-note_vpn (l ∷ ls) d =
      is_some-note_vpn ls (note (vpn_url node_ip running tcp l) (vpn_open node_ip running tcp l) d)
      ∙ rw (is_some-note u (vpn_url node_ip running tcp l) (vpn_open node_ip running tcp l) d)
          (or_swap _ (vpn_at l) (is_some (get u d)))

  was_up-note_sites :
      (ss : List Site) (d : Dict PublicInterface)
      → was_up (get u (note_sites node_ip running tcp ss d))
        ≡ (any (λ s. site_at s && site_open node_ip running tcp s) ss || was_up (get u d))
  unfolding note_sites
  was_up-note_sites [] d = refl
  was_up-note_sites (s ∷ ss) d =
      was_up-note_sites ss
        (note (site_url node_ip running tcp s) (site_open node_ip running tcp s) d)
      ∙ rw (was_up-note u (site_url node_ip running tcp s) (site_open node_ip running tcp s) d)
          (or_swap _ (site_at s && site_open node_ip running tcp s) (was_up (get u d)))

  is_some-note_sites :
      (ss : List Site) (d : Dict PublicInterface)
      → is_some (get u (note_sites node_ip running tcp ss d))
        ≡ (any site_at ss || is_some (get u d))
  unfolding note_sites
  is_some-note_sites [] d = refl
  is_some-note_sites (s ∷ ss) d =
      is_some-note_sites ss
        (note (site_url node_ip running tcp s) (site_open node_ip running tcp s) d)
      ∙ rw (is_some-note u (site_url node_ip running tcp s) (site_open node_ip running tcp s) d)
          (or_swap _ (site_at s) (is_some (get u d)))

  or_false : (b : Bool) → (b || false) ≡ b
  or_false true = refl
  or_false false = refl

  -- A URL is reported exactly if a listener or a site has it, and as up exactly if one of these is
  -- open, in whatever order they come and however many share the URL.
  pub interfaces_by_url-status :
      (ls : List Listener) (ss : List Site)
      → (is_some (get u (interfaces_by_url node_ip running tcp ls ss)) ≡ listed ls ss)
        × (was_up (get u (interfaces_by_url node_ip running tcp ls ss)) ≡ served ls ss)
  unfolding interfaces_by_url
  interfaces_by_url-status ls ss =
      let a = is_some-note_sites ss (note_vpn node_ip running tcp ls []) in
      let b = was_up-note_sites ss (note_vpn node_ip running tcp ls []) in
      (
        a ∙ rw (is_some-note_vpn ls []) (unfold get in rw (or_false (any vpn_at ls))),
        b
            ∙ rw (was_up-note_vpn ls []) (
                unfold get in
                rw (or_false (any (λ l. vpn_at l && vpn_open node_ip running tcp l) ls))),
      )
