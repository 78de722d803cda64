-- ===== src/Exec/Refines/Instance.antt =====
-- To do the same with more fuel, and to keep an invariant, is a logic of commands.
use ctutor.Base.{ℕ}
use ctutor.Exec.{Host, Exec, in_frame, in_source}
use ctutor.Exec.Logic.{Logic}
use ctutor.Exec.Refines.{
  Invariant, Refines, Refines-pure, Refines-raise, Refines-no_fuel, Refines-lift, Refines-asks,
  Refines-bind, Refines-alloc, Refines-alloc_with, Refines-write, Refines-store_bytes,
  Refines-delete, Refines-declare, refines_rules,
}

module _ {h : Host} {inv : Invariant h} {A : Type 0} (m m' : Exec A) (r : Refines inv m m') where
  pub Refines-in_frame : Refines inv (in_frame m) (in_frame m')
  unfolding in_frame
  Refines-in_frame = search refines_rules depth 30

  pub Refines-in_source : (source : ℕ) → Refines inv (in_source source m) (in_source source m')
  unfolding in_source
  Refines-in_source source = search refines_rules depth 30

abbrev pub refines_logic : {h : Host} → Invariant h → Logic h
refines_logic inv = record {
  Rel = λ q m m'. Refines inv m m';
  of_pure = λ q a. Refines-pure a;
  of_raise = λ q e. Refines-raise e;
  of_no_fuel = λ q m. Refines-no_fuel m;
  of_lift = λ q r. Refines-lift r;
  of_asks = λ q f. Refines-asks f;
  of_bind = λ q m m' f f' r k. Refines-bind m m' f f' r k;
  of_alloc = λ q t n. Refines-alloc t n;
  of_alloc_with = λ q t v. Refines-alloc_with t v;
  of_write = λ q b v n. Refines-write b v n;
  of_store = λ q b n bytes. Refines-store_bytes b n bytes;
  of_delete = λ q b. Refines-delete b;
  of_declare = λ name l. Refines-declare name l;
  of_in_frame = λ q m m' r. Refines-in_frame m m' r;
  of_in_source = λ q source m m' r. Refines-in_source m m' r source;
}
