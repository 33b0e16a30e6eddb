-- ===== src/Tables/Readers.antt =====
-- What the readers of tables share (app/services/table_evidence.py, table_ocr.py, table_docling.py,
-- table_pipeline.py): boxes in PDF points, tables with their cells, and the result of a page.
pub mod Docling
pub mod Mapped
pub mod MappedTables
pub mod Rapid
pub mod RapidPage
pub mod Pipeline
pub mod RapidGrids
pub mod Sound
pub mod Answers
pub mod Service
use pdf_engine_toolbox.Base.{
  ℕ, Bool, true, false, not, ◌&&◌, ◌||◌, Option, none, some, List, [], ◌∷◌, ◌==◌, length, any,
  is_some, if◌then◌else◌,
}
use pdf_engine_toolbox.Errors.{Text, codes}
use pdf_engine_toolbox.Tables.{Cell, Placement}
use pdf_engine_toolbox.Redact.Words.{Floats, Rect, n}

-- What the readers ask of floats: `math.isfinite`, and `round` to two and to four places.
pub record Measures : Type 1 where
  pub floats : Floats
  pub isfinite : floats.F → Bool
  pub round2 : floats.F → floats.F
  pub round4 : floats.F → floats.F

-- What a call of a library comes to: a value, `MemoryError`, or another exception.
pub data Attempt (A : Type 0) : Type 0 where
  returned : A → Attempt A
  out_of_memory : Attempt A
  excepted : Attempt A

pub data Source : Type 0 where
  native_pdf rapidtable docling_tableformer table_queue : Source

pub data PageStatus : Type 0 where
  complete empty unsupported failed : PageStatus

module _ (ms : Measures) where
  abbrev pub F : Type 0
  F = ms.floats.F

  abbrev pub Bbox : Type 0
  Bbox = Rect ms.floats

  abbrev pub le : F → F → Bool
  le = ms.floats.le

  abbrev pub lt : F → F → Bool
  lt = ms.floats.lt

  -- `min(x, *xs)` and `max(x, *xs)`: the first of equals.
  abbrev pub least : F → List F → F
  least x [] = x
  least x (y ∷ ys) = least (if lt y x then y else x) ys

  abbrev pub greatest : F → List F → F
  greatest x [] = x
  greatest x (y ∷ ys) = greatest (if lt x y then y else x) ys

  abbrev pub all_finite : List F → Bool
  all_finite vs = not (any (λ v. not (ms.isfinite v)) vs)

  -- `(x + offset) * scale`
  abbrev pub moved : F → F → F → F
  moved offset scale x = ms.floats.mul (ms.floats.add x offset) scale

  -- The box, if it lies in the page: `0 <= x0 < x1 <= page_width and 0 <= y0 < y1 <= page_height`.
  abbrev pub within : F → F → F → F → F → F → Option Bbox
  within w h x0 y0 x1 y1 =
      if le (n ms.floats 0) x0
        && lt x0 x1
        && le x1 w
        && le (n ms.floats 0) y0
        && lt y0 y1
        && le y1 h
      then some
          (record { x0 = ms.round4 x0; y0 = ms.round4 y0; x1 = ms.round4 x1; y1 = ms.round4 y1 })
      else none

  -- The offset, the scale and the page.
  pub record Frame : Type 0 where
    pub left : F
    pub top : F
    pub scale_x : F
    pub scale_y : F
    pub page_width : F
    pub page_height : F

  abbrev pub bounding : Frame → F → F → List F → List F → Option Bbox
  bounding f x y xs ys =
      within f.page_width f.page_height (moved f.left f.scale_x (least x xs))
        (moved f.top f.scale_y (least y ys)) (moved f.left f.scale_x (greatest x xs))
        (moved f.top f.scale_y (greatest y ys))

  abbrev pub bounds_of : Frame → List F → Option Bbox
  bounds_of f (a ∷ b ∷ c ∷ d ∷ []) = bounding f a b (c ∷ []) (d ∷ [])
  bounds_of f (a ∷ b ∷ c ∷ d ∷ e ∷ g ∷ i ∷ j ∷ []) =
      bounding f a b (c ∷ e ∷ i ∷ []) (d ∷ g ∷ j ∷ [])
  bounds_of f _ = none

  -- `pdf_bbox`: no number of the points is `none`, of a value that `float` refuses.
  unfoldable pub pdf_bbox : Frame → Option (List F) → Option Bbox
  pdf_bbox f none = none
  pdf_bbox f (some flat) = if all_finite flat then bounds_of f flat else none

  -- A cell with its geometry, which is available if there is a box.
  pub record TableCell : Type 0 where
    pub cell : Cell
    pub bbox : Option Bbox

  pub record Table : Type 0 where
    pub bbox : Option Bbox
    pub rows : List (List Text)
    pub cells : List TableCell
    pub row_count : ℕ
    pub col_count : ℕ
    pub geometry_unavailable : Bool

  -- `any(c["bbox"] is None for c in cells)`
  abbrev pub lacks_geometry : List TableCell → Bool
  lacks_geometry cells = any (λ c. not (is_some c.bbox)) cells

  -- The result of one page, but for the time it took.
  pub record PageResult : Type 0 where
    pub page_index : ℕ
    pub status : PageStatus
    pub tables : List Table
    pub reason : Option Text
    pub source : Source
    pub fallback_from : Option Source

  abbrev pub page_result : ℕ → Source → PageStatus → List Table → Option Text → PageResult
  page_result i s status tables reason = record {
    page_index = i;
    status = status;
    tables = tables;
    reason = reason;
    source = s;
    fallback_from = none;
  }
