-- ===== src/Modem.antt =====
-- What the drivers of the GSM modems share: src/modem, src/Types.h, src/UsartAction.h, and what a
-- driver does to the outside.
pub mod Sms
pub mod AtCommand
pub mod InFlight
use libcomms.Base.{ℕ, Bool, true, false, ◌&&◌, ◌||◌, not, Bytes, take, ◌==◌, if◌then◌else◌}
use libcomms.CLib.{upto_nul}
use libcomms.Response.{CommsError}

-- What a driver does to the world, in order: bytes to the modem, the power key, the serial
-- receiver, waiting, the raw bytes that it asks the line sink for, the calls of the client's
-- callback, and of Error_Handler.
pub data Output : Type 0 where
  transmitted : Bytes → Output
  pwr_key_set : Bool → Output
  usart_receiving : Bool → Output
  delayed : ℕ → Output
  raw_requested : ℕ → Output
  notified_connected notified_disconnected : Output
  notified_data : Bytes → Output
  notified_sent : ℕ → Output
  error_handled : CommsError → Output

-- AtCommandAction::run: what it transmits. The constructor for text leaves `len` at 0.
unfoldable pub at_command_run : Bytes → ℕ → Output
at_command_run command len =
    if len == 0 then transmitted (upto_nul command) else transmitted (take len command)

-- PwrKeyAction::run.
abbrev pub pwr_key_run : Bool → Output
pwr_key_run b = pwr_key_set b

pub data UsartType : Type 0 where
  interrupt_on interrupt_off : UsartType

-- UsartAction::run.
abbrev pub usart_run : UsartType → Output
usart_run interrupt_on = usart_receiving true
usart_run interrupt_off = usart_receiving false

-- StatusPinCondition::checkImpl, with the level of the pin.
abbrev pub status_pin_check : Bool → Bool → Bool
status_pin_check b status_pin = if b then status_pin else not status_pin
