-- ===== src/Screen/Write/Frame/Base.antt =====
-- What it means to leave the state of the escape sequence parser alone.
use minc.Prelude.{◌≡◌, refl, Bool, true, false, arith, if◌then◌else◌}
use minc.Console.{Console, Call, Coord, Terminal, issue, move_cursor}

-- The parser's part of the state is as it was.
pub record Keeps (t u : Terminal) : Type 0 where
  pub same_escape : u.escape ≡ t.escape
  pub same_seq : u.seq ≡ t.seq
  pub same_overrun : u.overrun ≡ t.overrun
  pub same_oflags : u.oflags ≡ t.oflags

-- So is it after a function that also gives a result.
pub record Kept (t : Terminal) (r : Bool × Terminal) : Type 0 where
  pub keeps : Keeps t r.1

pub Kept-if :
    {t : Terminal} (b : Bool) {x y : Bool × Terminal}
    → Kept t x
    → Kept t y
    → Kept t (if b then x else y)
Kept-if true p q = p
Kept-if false p q = q

-- The four equations, each by computation where a function assigns none of the fields.
pub Kept-same :
    {t : Terminal} {r : Bool × Terminal}
    → r.1.escape ≡ t.escape
    → r.1.seq ≡ t.seq
    → r.1.overrun ≡ t.overrun
    → r.1.oflags ≡ t.oflags
    → Kept t r
Kept-same a b d e = record {
  keeps = record { same_escape = a; same_seq = b; same_overrun = d; same_oflags = e };
}

pub Keeps-refl : (t : Terminal) → Keeps t t
Keeps-refl t = record {
  same_escape = refl;
  same_seq = refl;
  same_overrun = refl;
  same_oflags = refl;
}

pub Keeps-trans : {t u v : Terminal} → Keeps t u → Keeps u v → Keeps t v
Keeps-trans a b = ground arith

pub move_cursor-Kept : (c : Console) (p : Coord) (t : Terminal) → Kept t (move_cursor c p t)
unfolding move_cursor
move_cursor-Kept c p t = Kept-same refl refl refl refl

pub issue-Kept : (c : Console) (k : Call) (t : Terminal) → Kept t (issue c k t)
unfolding issue
issue-Kept c k t = Kept-same refl refl refl refl
