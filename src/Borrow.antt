-- ===== src/Borrow.antt =====
-- include/uinx/borrow.hpp: loans, origins of references, and the state of the borrow checker. Sets
-- and maps are lists of their elements and of their pairs, without duplicates.
pub mod Places
pub mod Loans
pub mod Tree
pub mod Sets
pub mod Uses
pub mod Liveness
pub mod Expire
mod Tests
use uinx.Prelude.{ℕ, Bool, List, Bytes, ◌==◌}
use uinx.Diagnostic.{SourceRange}
use uinx.Types.{Ty}

pub data BorrowKind : Type 0 where
  shared mut two_phase_reserved two_phase_activated : BorrowKind

abbrev pub kind_rank : BorrowKind → ℕ
kind_rank BorrowKind.shared = 0
kind_rank BorrowKind.mut = 1
kind_rank BorrowKind.two_phase_reserved = 2
kind_rank BorrowKind.two_phase_activated = 3

pub record Borrow : Type 0 where
  pub place : Bytes
  pub borrower : Bytes
  pub is_mut : Bool
  pub kind : BorrowKind
  pub origin : SourceRange
  pub reservation : SourceRange
  pub activated : Bool

pub record RefOrigin : Type 0 where
  pub place : Bytes
  pub range : SourceRange
  pub is_mut : Bool
  pub via : List Bytes

pub record State : Type 0 where
  pub moved : List Bytes
  pub borrows : List Borrow
  pub scopes : List (List (Bytes × Ty))
  pub ref_origins : List (Bytes × List RefOrigin)
  pub async_context : Bool
  pub reachable : Bool
