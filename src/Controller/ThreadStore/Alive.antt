-- ===== src/Controller/ThreadStore/Alive.antt =====
-- The list of the threads alive in QApplicationWindowController.cpp.
use aleakd.Base.{
  fun_ext, ℕ, suc, ◌+◌, ◌≤◌, ◌≡◌, refl, ap, Bool, true, false, Option, none, some, List, [], ◌∷◌,
  ◌++◌, ◌==◌, ==→eq, length, length-append, arith, Bool-cases, inl, inr,
}
use aleakd.Shared.Wire.{AllBelow}
use aleakd.Model.Records.{TimeVal, ThreadInfos}
use aleakd.Model.Objects.{holds, length-modify, read_at-modify, read_at-append, read_at-append_end}
use aleakd.Model.Threads.{has_id, get_by_id, remove_by_id}
use aleakd.Model.Threads.Count.{
  one_if, count_if, find_first-none, count_if-append, count_if-agree, AllBelow-weaken,
  AllBelow-append, count_if-remove_by_id, count_if-remove_by_id_le, remove_by_id-AllBelow,
}
use aleakd.Controller.ThreadStore.{
  ThreadStore, update_thread, new_thread, terminate, get_or_new, get_thread_infos,
}

-- How many entries of a thread id are alive.
abbrev pub alive_count : ThreadStore → ℕ → ℕ
alive_count st id = count_if (holds st.objects (has_id id)) st.list_thread_infos_alive

-- The entries alive are there, and no two are of the same thread.
pub record IsTracked (st : ThreadStore) : Type 0 where
  pub in_range : AllBelow (length st.objects) st.list_thread_infos_alive
  pub unique : (id : ℕ) → alive_count st id ≤ 1

appended-IsTracked :
    (t : ThreadInfos) (l : List ℕ) (st : ThreadStore)
    → IsTracked st
    → alive_count st t.thread_id ≡ 0
    → IsTracked (record {
      objects = st.objects ++ t ∷ [];
      list_thread_infos = l;
      list_thread_infos_alive = st.list_thread_infos_alive ++ length st.objects ∷ [];
    })
appended-IsTracked t l st v absent = record { in_range = in_range'; unique = unique' }
  where
    open st use {objects, list_thread_infos_alive as alive}

    longer : length (objects ++ t ∷ []) ≡ suc (length objects)
    longer = omega (arith, length-append objects (t ∷ []))

    in_range' : AllBelow (length (objects ++ t ∷ [])) (alive ++ length objects ∷ [])
    in_range' =
        AllBelow-append (length (objects ++ t ∷ [])) alive (length objects)
          (AllBelow-weaken (length objects) (length (objects ++ t ∷ [])) alive
            (omega (arith, longer)) v.in_range)
          (omega (arith, longer))

    counted :
        (k : ℕ)
        → count_if (holds (objects ++ t ∷ []) (has_id k)) (alive ++ length objects ∷ [])
          ≡ alive_count st k + one_if (t.thread_id == k)
    counted k = omega (
      arith,
      count_if-append (holds (objects ++ t ∷ []) (has_id k)) alive (length objects),
      count_if-agree (holds (objects ++ t ∷ []) (has_id k)) (holds objects (has_id k))
          (length objects) alive v.in_range (λ r h. read_at-append false (has_id k) objects t r h),
      ap one_if (read_at-append_end false (has_id k) objects t),
    )

    unique' :
        (k : ℕ) → count_if (holds (objects ++ t ∷ []) (has_id k)) (alive ++ length objects ∷ []) ≤ 1
    unique' k = elim (Bool-cases (t.thread_id == k)) [
      | inl same ↦
          omega (
            arith,
            counted k,
            ap one_if same,
            absent,
            ap (alive_count st) (==→eq t.thread_id k same),
          )
      | inr other ↦ omega (arith, counted k, ap one_if other, v.unique k)
    ]

new_thread-IsTracked :
    (id : ℕ) (tv : TimeVal) (st : ThreadStore)
    → IsTracked st
    → alive_count st id ≡ 0
    → IsTracked (new_thread id tv st).1
unfolding new_thread
new_thread-IsTracked id tv st v absent = appended-IsTracked _ _ st v absent

-- An assignment that keeps the thread id changes no count.
alive_count-update_thread :
    (f : ThreadInfos → ThreadInfos) (r : ℕ) (st : ThreadStore) (k : ℕ)
    → ((t : ThreadInfos) → (f t).thread_id ≡ t.thread_id)
    → alive_count (update_thread f r st) k ≡ alive_count st k
alive_count-update_thread f r st k same =
    ap (λ p. count_if p st.list_thread_infos_alive)
      (fun_ext
        (λ j. read_at-modify f false (has_id k) r j st.objects (λ t. ap (λ i. i == k) (same t))))

pub update_thread-IsTracked :
    (f : ThreadInfos → ThreadInfos) (r : ℕ) (st : ThreadStore)
    → ((t : ThreadInfos) → (f t).thread_id ≡ t.thread_id)
    → IsTracked st
    → IsTracked (update_thread f r st)
update_thread-IsTracked f r st same v = record {
  in_range = rw (length-modify f r st.objects) v.in_range;
  unique = λ k. omega (arith, alive_count-update_thread f r st k same, v.unique k);
}

removed-IsTracked :
    (id : ℕ) (st : ThreadStore)
    → IsTracked st
    → let st' = record st {
      list_thread_infos_alive = remove_by_id st.objects id st.list_thread_infos_alive;
    } in
      IsTracked st' × (alive_count st' id ≡ 0)
removed-IsTracked id st v = (
  record {
    in_range =
        remove_by_id-AllBelow st.objects id (length st.objects) st.list_thread_infos_alive
          v.in_range;
    unique = λ k. omega (
      arith,
      count_if-remove_by_id_le st.objects id (holds st.objects (has_id k))
          st.list_thread_infos_alive,
      v.unique k,
    );
  },
  count_if-remove_by_id st.objects id st.list_thread_infos_alive,
)

-- `getThreadInfos`, for a new thread or one that may be known.
pub get_thread_infos-IsTracked :
    (id : ℕ) (creation : Bool) (tv : TimeVal) (st : ThreadStore)
    → IsTracked st
    → IsTracked (get_thread_infos id creation tv st).1
unfolding get_thread_infos get_or_new terminate get_by_id
get_thread_infos-IsTracked id creation tv st v =
    found (get_by_id st.objects id st.list_thread_infos_alive) creation
      (find_first-none (holds st.objects (has_id id)) st.list_thread_infos_alive)
  where
    found :
        (o : Option ℕ) (b : Bool)
        → (o ≡ none → alive_count st id ≡ 0)
        → IsTracked (get_or_new o id b tv st).1
    found none b absent = new_thread-IsTracked id tv st v (absent refl)
    found (some r) false absent = v
    found (some r) true absent =
        let f : ThreadInfos → ThreadInfos =
          λ t. record t { is_terminated = true; tv_termination = tv } in
        let (left, gone) =
          removed-IsTracked id (update_thread f r st)
            (update_thread-IsTracked f r st (λ t. refl) v) in
        new_thread-IsTracked id tv (terminate r id tv st) left gone
