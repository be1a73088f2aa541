-- ===== src/Influx/Paging/Steps.antt =====
-- internal/influx/client.go, QueryRange: what follows a page.
use influx_sync.Base.{
  ℕ, zero, suc, ◌+◌, ◌-◌, ◌*◌, ◌≤◌, ◌<◌, ◌≡◌, ◌≢◌, refl, sym, ap, ◌∙◌, false, Option, none, some,
  List, [], ◌∷◌, ◌++◌, map, append_assoc, append-nil, ltb, ◌==◌, if◌then◌else◌, if_both, length,
  take, All, All-map, All-parts, ==_iff, ltb→lt, ltb→ge, length-append, length-take, take_all,
  arith,
}
use mathlib.Core.Path.{subst}
use influx_sync.Model.Rendering.{Point, point_key}
use influx_sync.Sender.Queries.{BoundarySet, empty_set, add_all}
use influx_sync.Sender.Queries.Boundary.{
  IsRegular, AreApart, add_all-contains, contains_point-apart,
}
use influx_sync.Sender.Queries.Exact.{AreAt, between, between-append, between-within}
use influx_sync.Influx.Paging.{last_ts, kept, carry, most_dense, dense, dense_done, page}
use influx_sync.Influx.Paging.Dense.{IsApart, IsApart-parts}
use influx_sync.Influx.Paging.Cutting.{Cut, cut, last_ts-append, carry-append}
use influx_sync.Influx.Paging.Source.{
  Window, IsReady, ahead, joined_at, opened_at, found_lem, points-IsApart, dense_lem, one_more,
  next_behind,
}

two_pages : (pages limit : ℕ) → limit < pages * limit → 2 ≤ pages
two_pages zero limit h = omega (arith, h)
two_pages (suc zero) limit h = absurd (omega (arith, h))
two_pages (suc (suc pages)) limit h = omega arith

one_less : (pages limit : ℕ) → 0 < pages → (pages - 1) * limit + limit ≡ pages * limit
one_less zero limit h = absurd (omega arith)
one_less (suc pages) limit h = grind arith

module _ (w : Window) where
  open w use {points, query, source, opt, start, end, no_offset, some_rows, small}

  module _ (next : ℕ → BoundarySet → ℕ → List Point → Option (List Point)) (rounds from pages : ℕ)
      (carried : BoundarySet) (acc : List Point) (enough : most_dense < rounds)
      (later : (from' : ℕ) (carried' : BoundarySet) (pages' : ℕ) (acc' : List Point)
        → from < from'
        → IsReady w from' carried' pages' acc'
        → next from' carried' pages' acc' ≡ some (between points start (end - start)))
      (ready : IsReady w from carried pages acc) (opened : from < end) where
    -- A full page that begins and ends in one nanosecond.
    behind_dense :
        (c : Cut points from (end - from) opt.limit)
        → c.at ≡ from
        → dense_done query (next (c.at + 1) (add_all empty_set (c.first ∷ c.more)) pages) (
            dense query rounds c.at opt.limit 0
              (map point_key (c.first ∷ c.more))
              (between points start (from - start) ++ take opt.limit (ahead w from)))
          ≡ some (between points start (end - start))
    unfolding dense_done between
    behind_dense c same_time =
        let rows = c.first ∷ c.more in
        let before = between points start (from - start) in
        let none_before : c.at - from ≡ 0 = omega (arith, same_time) in
        let taken : take opt.limit (ahead w from) ≡ rows =
          c.taken ∙ ap (λ n. between points from n ++ rows) none_before in
        let found = before ++ take opt.limit (ahead w from) in
        let size =
          ap length (opened_at w from end opened)
          ∙ length-append (points from) (between points (from + 1) (end - from - 1)) in
        let halves = ap length ready.split ∙ length-append ready.old ready.new in
        let left_count : end - (from + 1) ≡ end - from - 1 = omega arith in
        let left_size : length (ahead w (c.at + 1))
            ≡ length (between points (from + 1) (end - from - 1)) =
          ap (λ t. length (ahead w (t + 1))) same_time
          ∙ ap (λ n. length (between points (from + 1) n)) left_count in
        ap (dense_done query (next (c.at + 1) (add_all empty_set rows) pages))
          (dense_lem w c.at rounds rows c.left found enough c.split)
        ∙ later (c.at + 1) (add_all empty_set rows) pages (found ++ c.left)
            (omega (arith, same_time))
            (record {
              old = [];
              new = points (c.at + 1);
              begun = omega (arith, ready.begun, same_time);
              within = omega (arith, opened, same_time);
              done =
                  ap (λ t. (before ++ t) ++ c.left) taken
                  ∙ append_assoc before rows c.left
                  ∙ ap (λ t. before ++ t) (sym c.split)
                  ∙ ap (λ t. between points start (t - start) ++ points c.at) (sym same_time)
                  ∙ one_more w c.at (omega (arith, ready.begun, same_time))
                  ∙ sym (append-nil (between points start (c.at + 1 - start)));
              split = refl;
              known = tt;
              unknown =
                  All-map _ _ (points (c.at + 1))
                    (λ q h.
                      contains_point-apart rows q
                        (All-parts _ rows c.left (subst (All (λ p. AreApart p q)) c.split h)).0)
                    (next_behind w c.at);
              first = λ h. absurd (omega (arith, h));
              short = omega arith;
              room = omega (arith, ready.room, size, halves, left_size);
            })

    -- A full page that ends in a later nanosecond.
    behind_page :
        (c : Cut points from (end - from) opt.limit)
        → c.at ≢ from
        → opt.limit ≤ length (ahead w from)
        → ((pages - 1 == 0) ≡ false)
          × (next c.at
                (add_all empty_set (c.first ∷ c.more))
                (pages - 1)
                (between points start (from - start) ++ take opt.limit (ahead w from))
              ≡ some (between points start (end - start)))
    behind_page c other full =
        let rows = c.first ∷ c.more in
        let before = between points start (from - start) in
        let regular = All-map _ _ (points c.at) (λ p h. h.1) (source.dated c.at) in
        let (rows_regular, _) = All-parts _ rows c.left (subst (All IsRegular) c.split regular) in
        let (_, _, behind) =
          IsApart-parts rows c.left (subst IsApart c.split (points-IsApart w c.at)) in
        let before_last = between points from (c.at - from) in
        let later_time : from < c.at = omega (arith, c.begins, other) in
        let count : c.at - from + (end - c.at) ≡ end - from =
          omega (arith, c.begins, c.ends, opened) in
        let here : from + (c.at - from) ≡ c.at = omega (arith, c.begins) in
        let all : length (ahead w from) ≡ length before_last + length (ahead w c.at) =
          ap (λ n. length (between points from n)) (sym count)
          ∙ ap length (between-append points from (c.at - from) (end - c.at))
          ∙ length-append before_last (between points (from + (c.at - from)) (end - c.at))
          ∙ ap (λ t. length before_last + length (between points t (end - c.at))) here in
        let page_size = length-take opt.limit (ahead w from) in
        let page_parts = ap length c.taken ∙ length-append before_last rows in
        let begins_with =
          ap length (opened_at w from c.at later_time)
          ∙ length-append (points from) (between points (from + 1) (c.at - from - 1)) in
        let halves = ap length ready.split ∙ length-append ready.old ready.new in
        let two : 2 ≤ pages =
          two_pages pages opt.limit (omega (arith, ready.room, ready.short, full)) in
        let fewer = one_less pages opt.limit (omega (arith, two)) in
        (
          ground (arith, two),
          later c.at (add_all empty_set rows) (pages - 1) (before ++ take opt.limit (ahead w from))
              (omega (arith, c.begins, other))
              (record {
                old = rows;
                new = c.left;
                begun = omega (arith, c.begins, ready.begun);
                within = omega (arith, c.ends, opened);
                done =
                    ap (λ t. before ++ t) c.taken
                    ∙ sym (append_assoc before (between points from (c.at - from)) rows)
                    ∙ ap (λ t. t ++ rows) (joined_at w from c.at ready.begun c.begins);
                split = c.split;
                known = add_all-contains rows rows_regular;
                unknown = All-map _ _ c.left (λ q h. contains_point-apart rows q h) behind;
                first = λ h. (
                  (λ e. omega (arith, e, c.begins, other, ready.begun)),
                  omega (arith, c.ends, opened),
                );
                short = omega (arith, page_size, page_parts);
                room = omega (
                  arith, ready.room, all, page_size, page_parts, begins_with, halves, full, fewer,
                );
              }),
        )

    full_page :
        (r : Point) (rs : List Point)
        → take opt.limit (ahead w from) ≡ r ∷ rs
        → acc ++ kept start end from carried (r ∷ rs)
          ≡ between points start (from - start) ++ take opt.limit (ahead w from)
        → Cut points from (end - from) opt.limit
        → opt.limit ≤ length (ahead w from)
        → (let found = acc ++ kept start end from carried (r ∷ rs) in
            let last = last_ts r rs in
            let shared = carry last empty_set (r ∷ rs) in
            (if last == from
              then dense_done query
                  (next (last + 1) shared pages)
                  (dense query rounds last opt.limit 0 (map point_key (r ∷ rs)) found)
              else if (pages - 1) == 0
              then none
              else next last shared (pages - 1) found)
            ≡ some (between points start (end - start)))
    unfolding between
    full_page r rs e found c enough_rows =
        let whole = between points start (end - start) in
        let rows = c.first ∷ c.more in
        let last = last_ts r rs in
        let taken : r ∷ rs ≡ between points from (c.at - from) ++ rows = sym e ∙ c.taken in
        let (rows_at, _) = All-parts _ rows c.left (
          subst (AreAt c.at) c.split
            (All-map _ _ (points c.at) (λ p h. h.0) (source.dated c.at))) in
        let at_last : last ≡ c.at =
          last_ts-append c.at (between points from (c.at - from)) c.first c.more r rs taken
            rows_at in
        let before_last =
          All-map _ (λ p. p.timestamp ≢ c.at) (between points from (c.at - from))
            (λ p h same_time. omega (arith, h.1, same_time, c.begins))
            (between-within points source.dated from (c.at - from)) in
        let shared : carry last empty_set (r ∷ rs) ≡ add_all empty_set rows =
          ap (λ t. carry t empty_set (r ∷ rs)) at_last
          ∙ ap (carry c.at empty_set) taken
          ∙ carry-append c.at empty_set (between points from (c.at - from)) rows before_last
              rows_at in
        if_both (λ t. t ≡ some whole) (last == from) _ _
          (λ dense_page.
            let here : c.at ≡ from = sym at_last ∙ (==_iff last from).0 dense_page in
            let none_before : c.at - from ≡ 0 = omega (arith, here) in
            let one_time : r ∷ rs ≡ rows =
              taken ∙ ap (λ n. between points from n ++ rows) none_before in
            ap
              (λ t. dense_done query (next (t + 1) (carry last empty_set (r ∷ rs)) pages) (
                dense query rounds t opt.limit 0 (map point_key (r ∷ rs))
                  (acc ++ kept start end from carried (r ∷ rs))))
              at_last
            ∙ ap
                (λ t. dense_done query (next (c.at + 1) t pages) (
                  dense query rounds c.at opt.limit 0 (map point_key (r ∷ rs))
                    (acc ++ kept start end from carried (r ∷ rs))))
                shared
            ∙ ap
                (λ t.
                  dense_done query (next (c.at + 1) (add_all empty_set rows) pages)
                    (dense query rounds c.at opt.limit 0 (map point_key (r ∷ rs)) t))
                found
            ∙ ap
                (λ t. dense_done query (next (c.at + 1) (add_all empty_set rows) pages) (
                  dense query rounds c.at opt.limit 0 (map point_key t)
                    (between points start (from - start) ++ take opt.limit (ahead w from))))
                one_time
            ∙ behind_dense c here)
          (λ other_time.
            let other : c.at ≢ from = λ h. ground (arith, other_time, at_last, h) in
            let (not_last, rest) = behind_page c other enough_rows in
            ap
              (λ b.
                if b
                then none
                else next last (carry last empty_set (r ∷ rs)) (pages - 1)
                    (acc ++ kept start end from carried (r ∷ rs)))
              not_last
            ∙ ap
                (λ t.
                  next t (carry last empty_set (r ∷ rs)) (pages - 1)
                    (acc ++ kept start end from carried (r ∷ rs)))
                at_last
            ∙ ap (λ t. next c.at t (pages - 1) (acc ++ kept start end from carried (r ∷ rs))) shared
            ∙ ap (next c.at (add_all empty_set rows) (pages - 1)) found
            ∙ rest)

    pub page_rows :
        (rows : List Point)
        → take opt.limit (ahead w from) ≡ rows
        → page query next rounds opt start end from carried pages acc (some rows)
          ≡ some (between points start (end - start))
    unfolding page kept
    page_rows [] e =
        let none_taken : length (take opt.limit (ahead w from)) ≡ 0 = ap length e in
        let size = length-take opt.limit (ahead w from) in
        ap some (
          sym (append-nil acc)
          ∙ ap (λ t. acc ++ kept start end from carried t) (sym e)
          ∙ found_lem w from carried pages acc ready opened
          ∙ ap (λ t. between points start (from - start) ++ t)
              (take_all opt.limit (ahead w from) (omega (arith, none_taken, size, some_rows)))
          ∙ joined_at w from end ready.begun ready.within)
    page_rows (r ∷ rs) e =
        let whole = between points start (end - start) in
        let before = between points start (from - start) in
        let last = last_ts r rs in
        let shared = carry last empty_set (r ∷ rs) in
        let size = length-take opt.limit (ahead w from) ∙ refl in
        let page_size = ap length e in
        let found : acc ++ kept start end from carried (r ∷ rs)
            ≡ before ++ take opt.limit (ahead w from) =
          ap (λ t. acc ++ kept start end from carried t) (sym e)
          ∙ found_lem w from carried pages acc ready opened in
        if_both (λ t. t ≡ some whole) (ltb (length (r ∷ rs)) opt.limit) _ _
          (λ last_page.
            let few = ltb→lt (length (r ∷ rs)) opt.limit last_page in
            ap some (
              found
              ∙ ap (λ t. before ++ t)
                  (take_all opt.limit (ahead w from) (omega (arith, few, size, page_size)))
              ∙ joined_at w from end ready.begun ready.within))
          (λ full.
            let many = ltb→ge (length (r ∷ rs)) opt.limit full in
            let enough_rows : opt.limit ≤ length (ahead w from) =
              omega (arith, many, size, page_size) in
            let c = cut points (end - from) from opt.limit some_rows enough_rows in
            full_page r rs e found c enough_rows)
