-- ===== src/FileServer/Listing.antt =====
-- FTPcommand.cc: LIST, the entries of a directory as lines like those of `ls -l`.
use chatroom.Base.{
  Text, text, Bool, List, [], ◌∷◌, ◌++◌, Option, none, some, if◌then◌else◌, ◌>>=◌, ◌>>◌, decimal,
}
use chatroom.FileServer.State.{Entry, Do, FtpServices, send_response}
use chatroom.FileServer.Data.{send_data}

-- (st.st_mode & bit) ? "r" : "-", for the nine bits in their order
rights_text : Text → List Bool → Text
rights_text [] rights = []
rights_text (c ∷ letters) [] = []
rights_text (c ∷ letters) (b ∷ rights) = (if b then c else b'-') ∷ rights_text letters rights

or_unknown : Option Text → Text
unfolding text
or_unknown none = text "unknown"
or_unknown (some name) = name

-- One round of the loop: nothing where stat fails.
unfoldable pub entry_line : Entry → Text
unfolding text rights_text or_unknown
entry_line e =
    if e.stats
    then (if e.is_dir then b'd' else b'-')
      ∷ (rights_text (text "rwxrwxrwx") e.rights
          ++ (text " 1 "
              ++ (or_unknown e.owner
                  ++ (text " "
                      ++ (or_unknown e.group
                          ++ (text " "
                              ++ (decimal e.size
                                  ++ (text " "
                                      ++ (e.mtime ++ (text " " ++ (e.name ++ text "\r\n")))))))))))
    else []

unfoldable pub listing : List Entry → Text
listing [] = []
listing (e ∷ es) = entry_line e ++ listing es

unfoldable pub path_or : Text → Text → Text
path_or current [] = current
path_or current (c ∷ path) = c ∷ path

module _ {Db : Type 0} where
  unfoldable pub current_path : Do Db Text
  current_path w = some (w.conn.current_dir, w)

module _ {Db : Type 0} ⦃s : FtpServices Db⦄ where
  unfoldable pub list : Text → Do Db (Unit {0})
  unfolding text
  list path = do
    current ← current_path
    elim (s.read_dir (path_or current path)) [
      | none ↦ send_response (text "550 Failed to open directory.")
      | some entries ↦ (do
        send_response (text "150 Here comes the directory listing.")
        send_data (listing entries))
    ]
