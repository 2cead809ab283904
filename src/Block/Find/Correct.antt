-- ===== src/Block/Find/Correct.antt =====
-- block.cpp: `find` in a block that a builder made gives the first entry that is not below the target.
use Prim.Native.String.{String}
use ambar.Prelude.{
  ℕ, zero, suc, ◌+◌, ◌-◌, ◌/◌, ◌≤◌, ◌<◌, ◌^◌, u32, true, false, List, [], ◌∷◌, ◌++◌, Bytes, length,
  length-drop, drop, get_or, All, ltb, ◌==◌, le→ltb, Bool-cases, inl, inr, arith, ◌≡◌, refl, ap,
  sym, ◌∙◌, subst,
}
use ambar.Comparator.{Comparator}
use ambar.BlockBuilder.{new_builder, finish, current_size_estimate}
use ambar.BlockBuilder.Chain.{Holds, add_entries, length-finish}
use ambar.BlockBuilder.Points.{Point, add_entries-Pointed}
use ambar.Block.{Iter, new_block}
use ambar.Block.Layout.{laid_out, length-laid_out, new_block-laid_out, finish-laid_out}
use ambar.Block.Reads.{IsReadable, readable-Fits}
use ambar.Block.Find.{below, at_point, search_loop, find_from, find}
use ambar.Block.Find.Points.{All-back, All-get_or, block_iter, restart_point, region, probe-Point}
use ambar.Block.Find.Walk.{
  Entries, first_from, IsAscending, IsTransitive, Passed, first_from-Passed, before-Passed,
  walk-first_from,
}

module _ (comparator : Comparator) (stray : ℕ) (buffer : Bytes) (more : List ℕ) (es : Entries)
    (points : All (Point buffer es) more) (small : length (laid_out buffer (0 ∷ more)) < 2 ^ 32)
    (readable : All (IsReadable comparator) es) (target : Bytes) (message : String)
    (trans : IsTransitive comparator) (sorted : IsAscending comparator es)
    (all_hold : Holds [] buffer es) where
  -- The entries from a restart point on, where those before it are below the target.
  record Starts (left : ℕ) : Type 0 where
    done : Entries
    behind : Entries
    split : es ≡ done ++ behind
    inside : get_or (0 ∷ more) left 0 ≤ length buffer
    holds : Holds [] (drop (get_or (0 ∷ more) left 0) buffer) behind
    passed : Passed comparator target done

  first_Starts : Starts 0
  first_Starts = record {
    done = [];
    behind = es;
    split = refl;
    inside = omega arith;
    holds = all_hold;
    passed = tt;
  }

  abbrev it : Iter
  it = block_iter comparator stray buffer more es points small readable target message

  abbrev point_at : (m : ℕ) → m < length more → Point buffer es (get_or more m 0)
  point_at m h = All-get_or (Point buffer es) more m 0 points h

  Point-Starts :
      (m : ℕ) (h : m < length more)
      → below comparator (point_at m h).key target ≡ true
      → Starts (suc m)
  Point-Starts m h low =
      let p = point_at m h in
      record {
        done = p.before;
        behind = (p.key, p.val) ∷ p.behind;
        split = p.all;
        inside = omega (arith, p.inside);
        holds = p.holds;
        passed =
            before-Passed comparator target p.before p.behind (p.key, p.val) trans
              (subst (IsAscending comparator) p.all sorted) low;
      }

  search_loop-Starts :
      (rounds left right : ℕ)
      → Starts left
      → left ≤ right
      → right < length (0 ∷ more)
      → (left' : ℕ) × (left' < length (0 ∷ more))
        × (search_loop comparator message target it rounds left right ≡ at_point left')
        × Starts left'
  unfolding search_loop
  search_loop-Starts zero left right s ordered within = (left, omega arith, refl, s)
  search_loop-Starts (suc rounds) left right s ordered within =
      let mid = u32 (left + right + 1) / 2 in
      let few : length more < 2 ^ 30 = omega (arith, small, length-laid_out buffer (0 ∷ more)) in
      elim (Bool-cases (ltb left right)) [
        | inr done ↦ (left, omega arith, rw done refl, s)
        | inl apart ↦
            let low : left < mid = ground arith in
            let high : mid ≤ right = ground arith in
            let m = mid - 1 in
            let at : mid ≡ suc m = omega arith in
            let h : m < length more = omega arith in
            let probed =
              probe-Point comparator stray buffer more es points small readable target message mid
                (get_or more m 0)
                (restart_point comparator stray buffer more es points small readable target message
                    mid (omega arith)
                  ∙ ap (λ (i : ℕ). get_or (0 ∷ more) i 0) at)
                (point_at m h) in
            elim (Bool-cases (below comparator (point_at m h).key target)) [
              | inl is_below ↦
                  let (left', w, e, s') =
                    search_loop-Starts rounds mid right
                      (subst Starts (sym at) (Point-Starts m h is_below)) high within in
                  (left', w, rw (apart, probed, is_below) e, s')
              | inr not_below ↦
                  let (left', w, e, s') =
                    search_loop-Starts rounds left m s (omega arith) (omega arith) in
                  (left', w, rw (apart, probed, not_below) e, s')
            ]
      ]

  find_from-Starts :
      (left : ℕ)
      → left < length (0 ∷ more)
      → Starts left
      → find_from comparator target it (at_point left) ≡ first_from comparator target es
  unfolding find_from
  find_from-Starts left h s =
      let r = get_or (0 ∷ more) left 0 in
      let at =
        restart_point comparator stray buffer more es points small readable target message left h in
      let within : ltb (length buffer) r ≡ false = le→ltb _ _ s.inside in
      let from =
        region comparator stray buffer more es points small readable target message r s.inside in
      rw (at, within, from)
        (walk-first_from comparator target (length buffer - r + 1) (drop r buffer) [] s.behind
            s.holds
            (All-back (IsReadable comparator) s.done s.behind
              (subst (All (IsReadable comparator)) s.split readable))
            (omega (arith, length-drop r buffer))
          ∙ sym (first_from-Passed comparator target s.done s.behind s.passed)
          ∙ ap (first_from comparator target) (sym s.split))

-- In the block that a builder finishes, of entries with ascending keys, Block::find gives for every
-- target the first entry whose key is not below it, and none where all keys are below it, whatever
-- the restart interval. The conditions are that the comparator is transitive, that no key is
-- shorter than the comparator reads, and that the lengths of keys, values and the block have 32
-- bits.
pub find-finish :
    (comparator : Comparator) (stray interval : ℕ) (es : Entries) (target : Bytes)
    → IsTransitive comparator
    → IsAscending comparator es
    → All (IsReadable comparator) es
    → length (finish (add_entries (new_builder interval) es)).buffer < 2 ^ 32
    → find comparator stray
        (new_block (finish (add_entries (new_builder interval) es)).buffer)
        target
      ≡ first_from comparator target es
unfolding find
find-finish comparator stray interval es target trans sorted readable small =
    let b = add_entries (new_builder interval) es in
    let fits = readable-Fits comparator es readable in
    let p =
      add_entries-Pointed interval es fits
        (unfold current_size_estimate in omega (arith, small, length-finish b)) in
    let all_hold = p.building.holds in
    let form = finish-laid_out b p.more p.restarts small in
    let small' : length (laid_out b.buffer (0 ∷ p.more)) < 2 ^ 32 = rw form at small in
    let message : String = "restart key is too short for this comparator" in
    let n = length (0 ∷ p.more) in
    let long : ltb (length (laid_out b.buffer (0 ∷ p.more))) 4 ≡ false =
      le→ltb _ _ (omega (arith, length-laid_out b.buffer (0 ∷ p.more))) in
    let some_restarts : (n == 0) ≡ false = ground arith in
    let (left, within, ends, s) =
      search_loop-Starts comparator stray b.buffer p.more es p.points small' readable target message
        trans sorted all_hold n 0 (n - 1)
        (first_Starts comparator stray b.buffer p.more es p.points small' readable target message
          trans sorted all_hold)
        (omega arith) (omega arith) in
    rw (form, new_block-laid_out b.buffer (0 ∷ p.more) small', long, some_restarts, ends)
      (find_from-Starts comparator stray b.buffer p.more es p.points small' readable target message
        trans sorted all_hold left within s)
