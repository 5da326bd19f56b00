-- ===== src/Service/Hosts/Kept.antt =====
-- `updateHosts` of cli/command/service/update.go on entries that name each host once, and where an
-- entry names a host twice.
use docker_cli.Prelude.{
  suc, ◌+◌, ◌-◌, ◌≡◌, refl, sym, ap, ◌∙◌, true, false, some, List, [], ◌∷◌, ◌++◌, length,
  length-append, drop, take-append, append_assoc, arith, Bool-cases, inl, inr,
}
use docker_cli.Text.{Text, eq}
use docker_cli.Text.Laws.{eq_iff, eq_refl}
use docker_cli.Maps.{elem}
use docker_cli.Sort.Unique.{Unique}
use docker_cli.Service.Flags.{remove_items}
use docker_cli.Service.Slices.{Slice, items, remove_scan}
use docker_cli.Service.Slices.Removal.{scan_absent, scan_present}

-- The slice shows these names, with anything behind them in its array.
pub record Shows (s : Slice) (names : List Text) : Type 0 where
  pub behind : List Text
  pub array_is : s.array ≡ names ++ behind
  pub len_is : s.len ≡ length names

pub items-Shows : (s : Slice) (names : List Text) → Shows s names → items s ≡ names
items-Shows s names h = rw (h.len_is, h.array_is) (take-append names h.behind)

abbrev pub without : Text → List Text → List Text
without host names = remove_items names (host ∷ []) (λ n. n)

without_absent :
    (host : Text) (names : List Text) → elem host names ≡ false → without host names ≡ names
unfolding remove_items elem
without_absent host [] h = refl
without_absent host (n ∷ names) h =
    ground (arith, without_absent host names, eq_iff n host, eq_iff host n)

remove_items-append :
    (xs ys rm : List Text)
    → remove_items (xs ++ ys) rm (λ n. n)
      ≡ remove_items xs rm (λ n. n) ++ remove_items ys rm (λ n. n)
unfolding remove_items
remove_items-append [] ys rm = refl
remove_items-append (x ∷ xs) ys rm = ground (arith, remove_items-append xs ys rm)

-- A host that occurs once splits the names.
record Split (host : Text) (names : List Text) : Type 0 where
  before : List Text
  after : List Text
  splits : names ≡ before ++ (host ∷ after)
  not_before : elem host before ≡ false
  not_after : elem host after ≡ false

not_cons :
    (host n : Text) (names : List Text)
    → eq n host ≡ false
    → elem host names ≡ false
    → elem host (n ∷ names) ≡ false
unfolding elem
not_cons host n names e h = rw e h

Unique-Split :
    (host : Text) (names : List Text) → Unique names → elem host names ≡ true → Split host names
Unique-Split host [] u h = unfold elem in cc
Unique-Split host (n ∷ names) (n_out, u) h = elim (Bool-cases (eq n host)) [
  | inl e ↦
      let same : n ≡ host = (eq_iff n host).0 e in
      record {
        before = [];
        after = names;
        splits = ap (λ x. x ∷ names) same;
        not_before = unfold elem in refl;
        not_after = rw same at n_out;
      }
  | inr e ↦
      let s = Unique-Split host names u (unfold elem in ground arith) in
      record {
        before = n ∷ s.before;
        after = s.after;
        splits = ap (◌∷◌ n) s.splits;
        not_before = not_cons host n s.before e s.not_before;
        not_after = s.not_after;
      }
]

without_head : (host : Text) (names : List Text) → without host (host ∷ names) ≡ without host names
unfolding remove_items elem
without_head host names = ground (arith, eq_refl host)

without-Split :
    (host : Text) (names : List Text) (sp : Split host names)
    → without host names ≡ sp.before ++ sp.after
without-Split host names sp =
    ap (without host) sp.splits
    ∙ remove_items-append sp.before (host ∷ sp.after) (host ∷ [])
    ∙ ap (λ l. l ++ without host (host ∷ sp.after)) (without_absent host sp.before sp.not_before)
    ∙ ap (λ l. sp.before ++ l)
        (without_head host sp.after ∙ without_absent host sp.after sp.not_after)

-- One round removes the host from the names that the slice shows.
pub remove_scan-Shows :
    (host : Text) (s : Slice) (names : List Text)
    → Shows s names
    → Unique names
    → (s' : Slice) × (remove_scan host 0 s.len s ≡ some s') × Shows s' (without host names)
remove_scan-Shows host s names h u = elim (Bool-cases (elem host names)) [
  | inl e ↦
      let sp = Unique-Split host names u e in
      let size : s.len ≡ length sp.before + suc (length sp.after) =
        h.len_is ∙ ap length sp.splits ∙ length-append sp.before (host ∷ sp.after) in
      (
        record { array = sp.before ++ (sp.after ++ drop (s.len - 1) s.array); len = s.len - 1 },
        ap (λ k. remove_scan host 0 k s) (h.len_is ∙ ap length sp.splits)
            ∙ scan_present host 0 s.array [] sp.before sp.after h.behind s.len refl
                (h.array_is
                  ∙ ap (λ l. l ++ h.behind) sp.splits
                  ∙ append_assoc sp.before (host ∷ sp.after) h.behind)
                (omega arith) sp.not_before sp.not_after,
        record {
          behind = drop (s.len - 1) s.array;
          array_is = sym (
              ap (λ l. l ++ drop (s.len - 1) s.array) (without-Split host names sp)
              ∙ append_assoc sp.before sp.after (drop (s.len - 1) s.array));
          len_is =
              omega
                (arith, ap length (without-Split host names sp), length-append sp.before sp.after);
        },
      )
  | inr e ↦ (
    s,
    ap (λ k. remove_scan host 0 k s) h.len_is
        ∙ scan_absent host 0 s.array [] names h.behind s.len refl h.array_is e,
    rw (without_absent host names e) h,
  )
]
