-- ===== src/Collectors/Filtered.antt =====
-- The filter on interfaces.
use cozy_nm.Base.{
  ◌≡◌, refl, sym, subst, String, ◌==◌, eq_iff, eq_refl, Bool, true, ◌&&◌, arith, List, [], ◌∷◌, map,
  all, Bool-cases, inl, inr, or_else, nat_eq,
}
use cozy_nm.Base.Dicts.{get, assign}
use cozy_nm.Devices.Scan.{split_on, is_line_end, strip}
use cozy_nm.Collectors.Wireguard.{
  WireGuardInterface, Line, interface_line, peer_line, other_line, Interfaces, passes, add_line,
  read_line, read_lines, parse_wg_dump, bare_interface, add_peer,
}

module _ (filters : List String) where
  -- every entry is an interface that passes the filter, under its own name
  abbrev entries_pass : Interfaces → Bool
  entries_pass d = all (λ e. passes filters e.0 && (e.1.name == e.0)) d

  entries_pass-assign :
      (name : String) (i : WireGuardInterface) (d : Interfaces)
      → (passes filters name && (i.name == name)) ≡ true
      → entries_pass d ≡ true
      → entries_pass (assign name i d) ≡ true
  unfolding assign
  entries_pass-assign name i [] h k = ground arith
  entries_pass-assign name i ((j, w) ∷ d) h k =
      ground (arith, eq_iff j name, entries_pass-assign name i d)

  -- the interface that a peer is added to has the name of its line
  or_else-get-name :
      (name : String) (d : Interfaces)
      → entries_pass d ≡ true
      → ((or_else (get name d) (bare_interface name)).name == name) ≡ true
  unfolding get
  or_else-get-name name [] h = eq_refl name
  or_else-get-name name ((j, w) ∷ d) h = elim (Bool-cases (j == name)) [
    | inl e ↦ rw e (subst (λ x. (w.name == x) ≡ true) ((eq_iff j name).0 e) (ground arith))
    | inr e ↦ rw e (or_else-get-name name d (ground arith))
  ]

  entries_pass-add_line :
      (line : Line) (d : Interfaces)
      → entries_pass d ≡ true
      → entries_pass (add_line filters line d) ≡ true
  unfolding add_line
  entries_pass-add_line (interface_line i) d h = elim (Bool-cases (passes filters i.name)) [
    | inl p ↦ rw p (entries_pass-assign i.name i d (rw (p, eq_refl i.name)) h)
    | inr p ↦ rw p h
  ]
  entries_pass-add_line (peer_line name peer) d h = elim (Bool-cases (passes filters name)) [
    | inl p ↦ rw p (
        entries_pass-assign name (add_peer peer (or_else (get name d) (bare_interface name))) d
          (rw (p, or_else-get-name name d h)) h)
    | inr p ↦ rw p h
  ]
  entries_pass-add_line other_line d h = h

  entries_pass-read_lines :
      (lines : List String) (d : Interfaces)
      → entries_pass d ≡ true
      → entries_pass (read_lines filters lines d) ≡ true
  unfolding read_lines
  entries_pass-read_lines [] d h = h
  entries_pass-read_lines (line ∷ lines) d h =
      entries_pass-read_lines lines _
        (entries_pass-add_line (read_line (split_on (nat_eq 9) (strip line))) d h)

  entries-names :
      (d : Interfaces)
      → entries_pass d ≡ true
      → all (λ i. passes filters i.name) (map (λ e. e.1) d) ≡ true
  entries-names [] h = refl
  entries-names ((j, i) ∷ d) h =
      let e : (i.name == j) ≡ true = ground arith in
      let p : passes filters i.name ≡ true =
        subst (λ x. passes filters x ≡ true) (sym ((eq_iff i.name j).0 e)) (ground arith) in
      rw p (entries-names d (ground arith))

  -- Whatever wg prints, every interface of the result passes the filter.
  pub parse_wg_dump-filtered :
      (output : String) → all (λ i. passes filters i.name) (parse_wg_dump output filters) ≡ true
  unfolding parse_wg_dump
  parse_wg_dump-filtered output =
      entries-names _ (entries_pass-read_lines (split_on is_line_end output) [] refl)
