-- ===== src/Tests/Rings.antt =====
-- The theorem on ngxpp/NgxQueue.hpp, on a ring of two nodes and one of a single node.
use ngx_cpp_dev.Base.{ℕ, ◌==◌, refl, List, [], ◌∷◌, arith, if◌then◌else◌}
use ngx_cpp_dev.Base.Run.{Cmd, ok}
use ngx_cpp_dev.Nginx.{Ptr}
use ngx_cpp_dev.NgxQueue.{Queues, insert, append, node_remove, merge}
use ngx_cpp_dev.NgxQueue.Ring.{Holds}
use ngx_cpp_dev.NgxQueue.Merged.{Apart}
use ngx_cpp_dev.NgxQueue.Visits.{Visits, changes-Visits}

-- What the nodes of all rings hold.
record Links : Type 0 where
  pub next : Ptr → Ptr
  pub prev : Ptr → Ptr

abbrev written : (Ptr → Ptr) → Ptr → Ptr → Ptr → Ptr
written f p v a = if a == p then v else f a

abbrev links_queues : Queues Links
links_queues = record {
  next = λ q. q.next;
  prev = λ q. q.prev;
  init = λ h q. record { next = written q.next h h; prev = written q.prev h h };
  insert_after = λ h x q. record {
    next = written (written q.next h x) x (q.next h);
    prev = written (written q.prev (q.next h) x) x h;
  };
  insert_tail = λ h x q. record {
    next = written (written q.next (q.prev h) x) x h;
    prev = written (written q.prev x (q.prev h)) h x;
  };
  remove = λ x q. record {
    next = written q.next (q.prev x) (q.next x);
    prev = written q.prev (q.next x) (q.prev x);
  };
  add = λ h n q. record {
    next = written (written q.next (q.prev h) (q.next n)) (q.prev n) h;
    prev = written (written q.prev (q.next n) (q.prev h)) h (q.prev n);
  };
  is_empty = λ h q. h == q.prev h;
  next-init = λ h q. ground arith;
  prev-init = λ h q. ground arith;
  next-insert_after = λ h x q a ne. refl;
  prev-insert_after = λ h x q a ne. refl;
  next-insert_tail = λ h x q a ne. ground arith;
  prev-insert_tail = λ h x q a ne. ground arith;
  next-remove = λ x q a ne. refl;
  prev-remove = λ x q a ne. refl;
  next-add = λ h n q a ne. refl;
  prev-add = λ h n q a ne. refl;
}

-- The head 1 is followed by 2 and 3, and the head 11 by 12.
abbrev ring : Links
ring = record {
  next = λ a.
      if a == 1 then 2 else if a == 2 then 3 else if a == 11 then 12 else if a == 12 then 11 else 1;
  prev = λ a.
      if a == 1 then 3 else if a == 3 then 2 else if a == 11 then 12 else if a == 12 then 11 else 1;
}

ring-Holds : Holds links_queues 1 (2 ∷ 3 ∷ []) ring
ring-Holds = record {
  links = (refl, (refl, refl));
  back = (refl, (refl, refl));
  distinct = (refl, (refl, (refl, tt)));
}

abbrev collect : Ptr → Cmd (List ℕ) (Unit {0})
collect p s = ok tt (p ∷ s)

other-Holds : Holds links_queues 11 (12 ∷ []) ring
other-Holds = record { links = (refl, refl); back = (refl, refl); distinct = (refl, (refl, tt)) }

rings-Apart : Apart (1 ∷ 2 ∷ 3 ∷ []) (11 ∷ 12 ∷ [])
rings-Apart b i = ground arith

changes-Visits_example :
    Visits links_queues collect 5 1 (7 ∷ 2 ∷ 3 ∷ []) (insert links_queues 1 7 ring) []
    × Visits links_queues collect 5 1 (2 ∷ 3 ∷ 7 ∷ []) (append links_queues 1 7 ring) []
    × Visits links_queues collect 5 1 (2 ∷ []) (node_remove links_queues 3 ring) []
    × Visits links_queues collect 5 1 (2 ∷ 3 ∷ 12 ∷ []) (merge links_queues 1 11 ring) []
changes-Visits_example =
    changes-Visits links_queues collect 5 1 7 3 11 12 (2 ∷ []) [] [] ring [] ring-Holds refl
      other-Holds rings-Apart (omega arith)
