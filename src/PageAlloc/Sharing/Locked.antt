-- ===== src/PageAlloc/Sharing/Locked.antt =====
-- The lock of the shared list of mmu/kmalloc.c keeps all processors but one out.
use tinu_os.Prelude.{ℕ, ◌≡◌, ap, ◌∙◌, ◌≢◌, inl, inr, true, false, arith, Bool-cases}
use tinu_os.Spinlock.{xchg}
use tinu_os.PageAlloc.Sharing.{
  Pc, Shared, is_inside, Step, ask, take_lock, pass_by, look, find_none, unlink, finish_take, leave,
  wipe, write, take_lock_back, pass_by_back, link, put, finish_give, leave_back,
}

-- The lock is in use, it is held by a processor that is inside, and there is one at most.
pub record IsLocked (s : Shared) : Type 0 where
  pub in_use : s.use_lock ≢ 0
  pub held : (i : ℕ) → is_inside (s.pc i) ≡ true → s.lock.locked ≡ 1
  pub alone : (i j : ℕ) → is_inside (s.pc i) ≡ true → is_inside (s.pc j) ≡ true → i ≡ j

pub Step-IsLocked : {s t : Shared} → Step s t → IsLocked s → IsLocked t
Step-IsLocked {s} (ask i p) x = record {
  in_use = x.in_use;
  held = λ k q. ground (arith, x.held k);
  alone = λ k l q r. ground (arith, x.alone k l);
}
Step-IsLocked {s} (take_lock i p u) x = record {
  in_use = x.in_use;
  held = λ k q. unfold xchg in ground (arith, x.held k);
  alone = λ k l q r. unfold xchg in ground (arith, x.alone k l, x.held k, x.held l);
}
Step-IsLocked {s} (look i p) x = record {
  in_use = x.in_use;
  held = λ k q. ground (arith, x.held k, x.held i);
  alone = λ k l q r. ground (arith, x.alone k l, x.alone k i, x.alone i l);
}
Step-IsLocked {s} (find_none i p) x = record {
  in_use = x.in_use;
  held = λ k q. ground (arith, x.held k, x.held i);
  alone = λ k l q r. ground (arith, x.alone k l, x.alone k i, x.alone i l);
}
Step-IsLocked {s} (unlink i r p n) x = record {
  in_use = x.in_use;
  held = λ k q. ground (arith, x.held k, x.held i);
  alone = λ k l q u. ground (arith, x.alone k l, x.alone k i, x.alone i l);
}
Step-IsLocked {s} (finish_take i r p u) x = record {
  in_use = x.in_use;
  held = λ k q. ground (arith, x.held k, x.alone k i);
  alone = λ k l q r. ground (arith, x.alone k l);
}
Step-IsLocked {s} (wipe i p e g o) x = record {
  in_use = x.in_use;
  held = λ k q. ground (arith, x.held k);
  alone = λ k l q r. ground (arith, x.alone k l);
}
Step-IsLocked {s} (write i p m e g o f) x = record {
  in_use = x.in_use;
  held = λ k q. x.held k q;
  alone = λ k l q r. x.alone k l q r;
}
Step-IsLocked {s} (take_lock_back i p e u) x = record {
  in_use = x.in_use;
  held = λ k q. unfold xchg in ground (arith, x.held k);
  alone = λ k l q r. unfold xchg in ground (arith, x.alone k l, x.held k, x.held l);
}
Step-IsLocked {s} (link i p e) x = record {
  in_use = x.in_use;
  held = λ k q. ground (arith, x.held k, x.held i);
  alone = λ k l q r. ground (arith, x.alone k l, x.alone k i, x.alone i l);
}
Step-IsLocked {s} (put i p e) x = record {
  in_use = x.in_use;
  held = λ k q. ground (arith, x.held k, x.held i);
  alone = λ k l q r. ground (arith, x.alone k l, x.alone k i, x.alone i l);
}
Step-IsLocked {s} (finish_give i p u) x = record {
  in_use = x.in_use;
  held = λ k q. ground (arith, x.held k, x.alone k i);
  alone = λ k l q r. ground (arith, x.alone k l);
}
Step-IsLocked {s} (pass_by i p u) x = absurd (x.in_use u)
Step-IsLocked {s} (leave i r p u) x = absurd (x.in_use u)
Step-IsLocked {s} (pass_by_back i p e u) x = absurd (x.in_use u)
Step-IsLocked {s} (leave_back i p u) x = absurd (x.in_use u)

-- Nobody else is inside.
pub no_other :
    (s : Shared) (i j : ℕ) (p : Pc)
    → IsLocked s
    → is_inside (s.pc i) ≡ true
    → j ≢ i
    → s.pc j ≡ p
    → is_inside p ≡ false
no_other s i j p x h ne e = elim (Bool-cases (is_inside p)) [
  | inr out ↦ out
  | inl inside_too ↦ absurd (ne (x.alone j i (ap is_inside e ∙ inside_too) h))
]
