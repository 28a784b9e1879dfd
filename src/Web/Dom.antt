-- ===== src/Web/Dom.antt =====
-- The elements that the page's script reads and writes. `inner_html` is the markup inside an
-- element; the scripts address elements by id alone.
use sunbird_devops.Base.{String, Bool, List}

pub record Element : Type 0 where
  pub tag : String
  pub class_name : String
  pub inner_html : String
  pub href : String
  pub value : String
  pub kind : String
  pub disabled : Bool
  pub display : String

abbrev pub Document : Type 0
Document = List (String × Element)

-- `window.location`, and the parts of a `URL`
pub record Location : Type 0 where
  pub href : String
  pub protocol : String
  pub host : String
  pub origin : String
  pub search : String
