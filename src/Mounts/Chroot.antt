-- ===== src/Mounts/Chroot.antt =====
-- The directory that a mount leads to lies in the directory that sshd confines its user to.
use Prim.Native.String
use Prim.Native.String.{[], ◌∷◌}
use text.Mathlib.TextLemmas.{cons-append, nil-append}
use cozy_nm.Base.{
  ap, ◌≡◌, refl, sym, ◌∙◌, String, false, ◌&&◌, none, some, has_prefix, rstrip, drop_while, List,
  ◌++◌, All, Bool-cases, inl, inr,
}
use cozy_nm.Devices.Scan.{split_on}
use cozy_nm.Hosts.Lexical.{IsPlain, keep_parts-IsPlain}
use cozy_nm.Hosts.Paths.{keep_parts, root_of}
use cozy_nm.Mounts.Correlated.{normpath, target_directory, is_slash}
use cozy_nm.Mounts.Exports.{join_names, path_text}
use cozy_nm.Mounts.Slashes.{
  IsWhole, split_on-IsWhole, split_on-append, keep_parts-IsWhole, keep_parts-append,
  keep_parts-join_names, no_slash, keep_parts-blank, split_on-rstrip,
}

names-rstrip :
    (s : String) → keep_parts (split_on is_slash (rstrip is_slash s)) List.[] ≡ (normpath s).names
unfolding normpath
names-rstrip s =
    let (blank, e, h) = split_on-rstrip s in
    rw
      (
        e,
        keep_parts-append (split_on is_slash (rstrip is_slash s)) blank List.[],
        keep_parts-blank blank (keep_parts (split_on is_slash (rstrip is_slash s)) List.[]) h,
      )
      refl

slash_append : (s : String) → String.◌++◌ "/" s ≡ "/" ∷ s
slash_append s = rw (cons-append "/" [] s, nil-append s) refl

-- a path from the root that goes on with another character has one slash as its root
root_of-relative : (s : String) → has_prefix "/" s ≡ false → root_of ("/" ∷ s) ≡ "/"
unfolding root_of
root_of-relative s h = rw h refl

abbrev remote_names : String → List String
remote_names remote = keep_parts (split_on is_slash ("/" ∷ drop_while is_slash remote)) List.[]

normpath-remote :
    (remote : String)
    → path_text (normpath (String.◌++◌ "/" (drop_while is_slash remote)))
      ≡ "/" ∷ join_names (remote_names remote)
unfolding normpath path_text
normpath-remote remote =
    rw
      (
        slash_append (drop_while is_slash remote),
        root_of-relative (drop_while is_slash remote) (no_slash remote),
      )
      (slash_append (join_names (remote_names remote)))

normpath-below :
    (base : String) (names : List String)
    → All IsWhole names
    → All IsPlain names
    → (normpath (String.◌++◌ base ("/" ∷ join_names names))).names
      ≡ keep_parts (split_on is_slash base) List.[] ++ names
unfolding normpath
normpath-below base names w h =
    rw
      (
        split_on-append base (join_names names),
        keep_parts-append (split_on is_slash base) (split_on is_slash (join_names names)) List.[],
      )
      (keep_parts-join_names names (keep_parts (split_on is_slash base) List.[]) w h)

-- Where a mount leads to at a chroot directory, the names on the way are those of the directory itself,
-- normalized, with plain names behind them, none of which is `..` or has a slash in it.
pub target_directory-below :
    (chroot remote target : String)
    → target_directory chroot remote ≡ some target
    → (root : String) × (names : List String) × (target
        ≡ path_text (record { root = root; names = (normpath chroot).names ++ names }))
      × All IsPlain names
      × All IsWhole names
unfolding target_directory
target_directory-below chroot remote target h =
    elim (Bool-cases (has_prefix "/" chroot && has_prefix "/" remote)) [
      | inr e ↦ let bad : none ≡ some target = rw e at h in absurd (cc (bad))
      | inl e ↦
          let path =
            String.◌++◌ (rstrip is_slash chroot) ("/" ∷ join_names (remote_names remote)) in
          let same : some (path_text (normpath path)) ≡ some target =
            rw (e, normpath-remote remote) at h in
          let t : path_text (normpath path) ≡ target = cc (same) in
          let w =
            keep_parts-IsWhole (split_on is_slash ("/" ∷ drop_while is_slash remote)) List.[]
              (split_on-IsWhole ("/" ∷ drop_while is_slash remote)) tt in
          let p =
            keep_parts-IsPlain (split_on is_slash ("/" ∷ drop_while is_slash remote)) List.[] tt in
          (
            (normpath path).root,
            remote_names remote,
            sym t
                ∙ ap (λ ns. path_text (record { root = (normpath path).root; names = ns }))
                    (normpath-below (rstrip is_slash chroot) (remote_names remote) w p
                      ∙ ap (λ ns. ns ++ remote_names remote) (names-rstrip chroot)),
            p,
            w,
          )
    ]
